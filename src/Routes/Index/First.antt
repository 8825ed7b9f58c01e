-- ===== src/Routes/Index/First.antt =====
-- The first route of a list that passes a test, by position, and the better of two positions.
use lagos.Prelude.{
  ℕ, suc, ◌+◌, ◌≡◌, ◌≤◌, refl, leb, if◌then◌else◌, Bool, ◌||◌, Option, none, some, List, [], ◌∷◌,
  get_elem?, Bool-cases, inl, inr, arith,
}
use lagos.Routes.Table.{RouteConfig, find_route}

-- The positions, counted from `i`, of the routes that pass.
unfoldable pub select : ℕ → (RouteConfig → Bool) → List RouteConfig → List ℕ
select i p [] = []
select i p (r ∷ rs) = let rest = select (suc i) p rs in if p r then i ∷ rest else rest

-- The first of them.
unfoldable pub first : ℕ → (RouteConfig → Bool) → List RouteConfig → Option ℕ
first i p [] = none
first i p (r ∷ rs) = let rest = first (suc i) p rs in if p r then some i else rest

-- The smaller of two positions that may be missing.
unfoldable pub better : Option ℕ → Option ℕ → Option ℕ
better none b = b
better (some a) none = some a
better (some a) (some b) = if leb a b then some a else some b

module _ (p : RouteConfig → Bool) where
  pub first_bound : (rs : List RouteConfig) (i k : ℕ) → first i p rs ≡ some k → i ≤ k
  unfolding first
  first_bound [] i k h = cc
  first_bound (r ∷ rs) i k h = ground (arith, first_bound rs (suc i) k)

  -- The route at the first position is the first route.
  pub find_route-first :
      (rs : List RouteConfig) (i : ℕ) (routes : List RouteConfig)
      → ((k : ℕ) → get_elem? routes (i + k) ≡ get_elem? rs k)
      → (elim (first i p rs) [ none ↦ none | some k ↦ get_elem? routes k ]) ≡ find_route p rs
  unfolding first find_route
  find_route-first [] i routes h = refl
  find_route-first (r ∷ rs) i routes h = elim (Bool-cases (p r)) [
    | inl e ↦ ground (arith, h 0)
    | inr e ↦ rw e (find_route-first rs (suc i) routes (λ k. ground (arith, h (suc k))))
  ]

pub better_left :
    (i : ℕ) (b : Option ℕ) → ((k : ℕ) → b ≡ some k → i ≤ k) → better (some i) b ≡ some i
unfolding better
better_left i none h = refl
better_left i (some k) h = let bound = h k refl in ground arith

pub better_right :
    (i : ℕ) (a : Option ℕ) → ((k : ℕ) → a ≡ some k → suc i ≤ k) → better a (some i) ≡ some i
unfolding better
better_right i none h = refl
better_right i (some k) h = let bound = h k refl in ground arith

pub better-none : (a : Option ℕ) → better a none ≡ a
unfolding better
better-none none = refl
better-none (some a) = refl

-- The first to pass one of two tests is the better of the first to pass each.
pub better-first :
    (p q : RouteConfig → Bool) (rs : List RouteConfig) (i : ℕ)
    → better (first i p rs) (first i q rs) ≡ first i (λ r. p r || q r) rs
unfolding better first
better-first p q [] i = refl
better-first p q (r ∷ rs) i =
    let left =
      better_left i (first (suc i) q rs) (λ k h. omega (arith, first_bound q rs (suc i) k h)) in
    let right = better_right i (first (suc i) p rs) (first_bound p rs (suc i)) in
    let both = better_left i (some i) (λ k h. ground arith) in
    elim (Bool-cases (p r)) [
      | inl e ↦ elim (Bool-cases (q r)) [ inl f ↦ rw (e, f) both | inr f ↦ rw (e, f) left ]
      | inr e ↦ elim (Bool-cases (q r)) [
        | inl f ↦ rw (e, f) right
        | inr f ↦ rw (e, f) (better-first p q rs (suc i))
      ]
    ]

pub first_cong :
    (p q : RouteConfig → Bool) (rs : List RouteConfig) (i : ℕ)
    → ((r : RouteConfig) → p r ≡ q r)
    → first i p rs ≡ first i q rs
unfolding first
first_cong p q [] i h = refl
first_cong p q (r ∷ rs) i h = rw (h r, first_cong p q rs (suc i) h)
