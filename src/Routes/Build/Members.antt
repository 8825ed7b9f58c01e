-- ===== src/Routes/Build/Members.antt =====
-- What sorting, deriving and filtering keep of a list of routes.
use mathlib.Core.List.{Memᴰ}
use mathlib.Core.List.Memᴰ
use lagos.Prelude.{
  ◌≡◌, refl, sym, ap, ◌∙◌, if◌then◌else◌, Bool, true, false, List, [], ◌∷◌, map, Bool-cases, inl,
  inr, ◌⊎◌,
}
use lagos.Routes.Table.{AuthTier, RouteConfig, keep_tier}
use lagos.Routes.Build.{
  enabled_routes, derive_route, derive_routes, insert_sorted, sort_routes, sorts_before,
}

-- Sorting, deriving and filtering keep what they should.
of_insert_sorted :
    (x r : RouteConfig) (rs : List RouteConfig) → Memᴰ x (insert_sorted r rs) → Memᴰ x (r ∷ rs)
unfolding insert_sorted
of_insert_sorted x r [] m = m
of_insert_sorted x r (y ∷ ys) m = elim (Bool-cases (sorts_before y r)) [
  | inl e ↦ elim (Memᴰ.cases_cons (rw e at m)) [
    | inl same ↦ Memᴰ.tail (Memᴰ.head same)
    | inr n ↦ elim (Memᴰ.cases_cons (of_insert_sorted x r ys n)) [
      | inl same ↦ Memᴰ.head same
      | inr further ↦ Memᴰ.tail (Memᴰ.tail further)
    ]
  ]
  | inr e ↦ rw e at m
]

to_insert_sorted :
    (x r : RouteConfig) (rs : List RouteConfig) → Memᴰ x (r ∷ rs) → Memᴰ x (insert_sorted r rs)
unfolding insert_sorted
to_insert_sorted x r [] m = m
to_insert_sorted x r (y ∷ ys) (Memᴰ.head e) = elim (Bool-cases (sorts_before y r)) [
  | inl f ↦ rw f (Memᴰ.tail (to_insert_sorted x r ys (Memᴰ.head e)))
  | inr f ↦ rw f (Memᴰ.head e)
]
to_insert_sorted x r (y ∷ ys) (Memᴰ.tail (Memᴰ.head e)) = elim (Bool-cases (sorts_before y r)) [
  | inl f ↦ rw f (Memᴰ.head e)
  | inr f ↦ rw f (Memᴰ.tail (Memᴰ.head e))
]
to_insert_sorted x r (y ∷ ys) (Memᴰ.tail (Memᴰ.tail m)) = elim (Bool-cases (sorts_before y r)) [
  | inl f ↦ rw f (Memᴰ.tail (to_insert_sorted x r ys (Memᴰ.tail m)))
  | inr f ↦ rw f (Memᴰ.tail (Memᴰ.tail m))
]

pub of_sorted : (x : RouteConfig) (rs : List RouteConfig) → Memᴰ x (sort_routes rs) → Memᴰ x rs
unfolding sort_routes
of_sorted x [] m = m
of_sorted x (r ∷ rs) m = elim (Memᴰ.cases_cons (of_insert_sorted x r (sort_routes rs) m)) [
  | inl e ↦ Memᴰ.head e
  | inr n ↦ Memᴰ.tail (of_sorted x rs n)
]

pub to_sorted : (x : RouteConfig) (rs : List RouteConfig) → Memᴰ x rs → Memᴰ x (sort_routes rs)
unfolding sort_routes
to_sorted x [] m = m
to_sorted x (r ∷ rs) (Memᴰ.head e) = to_insert_sorted x r (sort_routes rs) (Memᴰ.head e)
to_sorted x (r ∷ rs) (Memᴰ.tail m) =
    to_insert_sorted x r (sort_routes rs) (Memᴰ.tail (to_sorted x rs m))

pub derive_routes-map :
    (rs : List RouteConfig) → (derive_routes rs).0 ≡ map (λ r. (derive_route r).0) rs
unfolding derive_routes
derive_routes-map [] = refl
derive_routes-map (r ∷ rs) =
    ap (λ (l : List RouteConfig). (derive_route r).0 ∷ l) (derive_routes-map rs)

-- What is in a list whose head is there on a condition.
of_condition :
    (x r : RouteConfig) (rest : List RouteConfig) (b : Bool)
    → Memᴰ x (if b then r ∷ rest else rest)
    → ((x ≡ r) × (b ≡ true)) ⊎ Memᴰ x rest
of_condition x r rest true m = elim (Memᴰ.cases_cons m) [ inl e ↦ inl (e, refl) | inr n ↦ inr n ]
of_condition x r rest false m = inr m

pub under_condition :
    (x r : RouteConfig) (rest : List RouteConfig) (b : Bool)
    → ((x ≡ r) × (b ≡ true)) ⊎ Memᴰ x rest
    → Memᴰ x (if b then r ∷ rest else rest)
under_condition x r rest true (inl (e, _)) = Memᴰ.head e
under_condition x r rest true (inr m) = Memᴰ.tail m
under_condition x r rest false (inl (_, e)) = cc
under_condition x r rest false (inr m) = m

pub of_enabled_routes :
    (x : RouteConfig) (rs : List RouteConfig)
    → Memᴰ x (enabled_routes rs)
    → Memᴰ x rs × (x.enabled ≡ true)
unfolding enabled_routes
of_enabled_routes x [] m = elim m [ ]
of_enabled_routes x (r ∷ rs) m = elim (of_condition x r (enabled_routes rs) r.enabled m) [
  | inl (e, on) ↦ (Memᴰ.head e, ap (λ (y : RouteConfig). y.enabled) e ∙ on)
  | inr n ↦ let (there, on) = of_enabled_routes x rs n in (Memᴰ.tail there, on)
]

pub to_enabled_routes :
    (x : RouteConfig) (rs : List RouteConfig)
    → Memᴰ x rs
    → x.enabled ≡ true
    → Memᴰ x (enabled_routes rs)
unfolding enabled_routes
to_enabled_routes x [] m on = elim m [ ]
to_enabled_routes x (r ∷ rs) (Memᴰ.head e) on =
    under_condition x r (enabled_routes rs) r.enabled
      (inl (e, ap (λ (y : RouteConfig). y.enabled) (sym e) ∙ on))
to_enabled_routes x (r ∷ rs) (Memᴰ.tail m) on =
    under_condition x r (enabled_routes rs) r.enabled (inr (to_enabled_routes x rs m on))

pub of_keep_tier :
    (p : AuthTier → Bool) (x : RouteConfig) (rs : List RouteConfig)
    → Memᴰ x (keep_tier p rs)
    → Memᴰ x rs × (p x.auth ≡ true)
unfolding keep_tier
of_keep_tier p x [] m = elim m [ ]
of_keep_tier p x (r ∷ rs) m = elim (of_condition x r (keep_tier p rs) (p r.auth) m) [
  | inl (e, on) ↦ (Memᴰ.head e, ap (λ (y : RouteConfig). p y.auth) e ∙ on)
  | inr n ↦ let (there, on) = of_keep_tier p x rs n in (Memᴰ.tail there, on)
]

pub to_keep_tier :
    (p : AuthTier → Bool) (x : RouteConfig) (rs : List RouteConfig)
    → Memᴰ x rs
    → p x.auth ≡ true
    → Memᴰ x (keep_tier p rs)
unfolding keep_tier
to_keep_tier p x [] m on = elim m [ ]
to_keep_tier p x (r ∷ rs) (Memᴰ.head e) on =
    under_condition x r (keep_tier p rs) (p r.auth)
      (inl (e, ap (λ (y : RouteConfig). p y.auth) (sym e) ∙ on))
to_keep_tier p x (r ∷ rs) (Memᴰ.tail m) on =
    under_condition x r (keep_tier p rs) (p r.auth) (inr (to_keep_tier p x rs m on))
