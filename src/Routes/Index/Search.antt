-- ===== src/Routes/Index/Search.antt =====
-- The loops of the search, against the positions at the end of each path.
use lagos.Prelude.{
  ℕ, zero, suc, ◌+◌, ◌≡◌, ◌≤◌, refl, sym, ap, ◌∙◌, leb, if◌then◌else◌, Bool, ◌&&◌, ◌||◌, Option,
  none, some, List, [], ◌∷◌, get_elem?, Bool-cases, Option-cases, inl, inr, arith,
}
use lagos.Text.{Text}
use lagos.Routes.Table.{RouteConfig, matches_method, matches_host}
use lagos.Routes.Index.{Node, child_at, accepts, consider_routes, consider, walk_path}
use lagos.Routes.Index.Arena.{routes_at}
use lagos.Routes.Index.Tree.{content, content-some, content-none, walk, routes_of}
use lagos.Routes.Index.First.{
  select, first, better, first_bound, better_left, better_right, better-none, better-first,
  first_cong,
}
use lagos.Routes.Index.Segments.{any_beginning}

module _ (routes : List RouteConfig) (method : Text) (host : Option Text) where
  unfoldable pub admits : RouteConfig → Bool
  admits r = matches_method r method && matches_host r host

  -- The search, given the positions at the end of each path.
  unfoldable pub visit : (List Text → List ℕ) → List Text → Option ℕ → Option ℕ
  visit at [] best = best
  visit at (s ∷ ss) best =
      visit (λ u. at (s ∷ u)) ss (consider_routes routes method host (at (s ∷ [])) best)

  pub visit_cong :
      (f g : List Text → List ℕ) (ss : List Text) (best : Option ℕ)
      → ((u : List Text) → f u ≡ g u)
      → visit f ss best ≡ visit g ss best
  unfolding visit
  visit_cong f g [] best h = refl
  visit_cong f g (s ∷ ss) best h =
      ap (λ (l : List ℕ). visit (λ u. f (s ∷ u)) ss (consider_routes routes method host l best))
        (h (s ∷ []))
      ∙ visit_cong (λ u. f (s ∷ u)) (λ u. g (s ∷ u)) ss _ (λ u. h (s ∷ u))

  visit_nothing : (ss : List Text) (best : Option ℕ) → visit (λ u. []) ss best ≡ best
  unfolding visit consider_routes
  visit_nothing [] best = refl
  visit_nothing (s ∷ ss) best = visit_nothing ss best

  pub consider-routes_at :
      (nodes : List Node) (n : ℕ) (best : Option ℕ)
      → consider routes method host nodes n best
        ≡ consider_routes routes method host (routes_at nodes n) best
  unfolding consider routes_at consider_routes
  consider-routes_at [] n best = refl
  consider-routes_at (x ∷ nodes) zero best = refl
  consider-routes_at (x ∷ nodes) (suc n) best = consider-routes_at nodes n best

  pub content_here : (nodes : List Node) (n : ℕ) → content nodes n [] ≡ routes_at nodes n
  unfolding content walk routes_of
  content_here nodes n = refl

  pub walk_path-visit :
      (nodes : List Node) (ss : List Text) (n : ℕ) (best : Option ℕ)
      → walk_path routes method host nodes n ss best ≡ visit (content nodes n) ss best
  unfolding walk_path visit consider_routes
  walk_path-visit nodes [] n best = refl
  walk_path-visit nodes (s ∷ ss) n best = elim (Option-cases (child_at nodes n s)) [
    | inl e ↦
        rw (e, walk_path)
          (sym (
            ap (visit (λ u. content nodes n (s ∷ u)) ss) (
              ap (λ (l : List ℕ). consider_routes routes method host l best)
                (content-none nodes n s [] e))
            ∙ visit_cong (λ u. content nodes n (s ∷ u)) (λ u. []) ss best
                (λ u. content-none nodes n s u e)
            ∙ visit_nothing ss best))
    | inr (c, e) ↦
        rw (e, walk_path)
          (walk_path-visit nodes ss c _
            ∙ ap (visit (content nodes c) ss) (
                consider-routes_at nodes c best
                ∙ ap (λ (l : List ℕ). consider_routes routes method host l best)
                    (sym (content-some nodes n c s [] e ∙ content_here nodes c)))
            ∙ sym (
                visit_cong (λ u. content nodes n (s ∷ u)) (content nodes c) ss _
                  (λ u. content-some nodes n c s u e)))
  ]

  accepts-admits :
      (r : RouteConfig) (i : ℕ)
      → get_elem? routes i ≡ some r
      → accepts routes method host i ≡ admits r
  unfolding accepts admits
  accepts-admits r i h = rw (h, accepts) refl

  -- One turn of the loop, at a position that is below all that `rest` holds.
  consider_one :
      (r : RouteConfig) (i : ℕ) (places : List ℕ) (best rest : Option ℕ)
      → accepts routes method host i ≡ admits r
      → ((k : ℕ) → rest ≡ some k → suc i ≤ k)
      → consider_routes routes method host places best ≡ better best rest
      → consider_routes routes method host (i ∷ places) best
        ≡ better best (if admits r then some i else rest)
  unfolding consider_routes better
  consider_one r i places none rest a low h = elim (Bool-cases (admits r)) [
    | inl e ↦ rw (a, e)
    | inr e ↦ rw (a, e) h
  ]
  consider_one r i places (some b) rest a low h = elim (Bool-cases (leb b i)) [
    | inl f ↦ rw f (sym (better_left b _ (λ k g. ground (arith, low k))))
    | inr f ↦ elim (Bool-cases (admits r)) [
      | inl e ↦ rw (f, a, e) (sym (better_right i (some b) (λ k g. ground arith)))
      | inr e ↦ rw (f, a, e) h
    ]
  ]

  -- The loop over the positions of a node yields the better of what was found before and the first
  -- of them that is accepted.
  pub consider_routes-first :
      (p : RouteConfig → Bool) (rs : List RouteConfig) (i : ℕ) (best : Option ℕ)
      → ((k : ℕ) → get_elem? routes (i + k) ≡ get_elem? rs k)
      → consider_routes routes method host (select i p rs) best
        ≡ better best (first i (λ r. p r && admits r) rs)
  unfolding consider_routes select first admits
  consider_routes-first p [] i best h = sym (better-none best)
  consider_routes-first p (r ∷ rs) i best h =
      let rest = consider_routes-first p rs (suc i) best (λ k. ground (arith, h (suc k))) in
      let low = first_bound (λ r. p r && admits r) rs (suc i) in
      let here : get_elem? routes i ≡ some r = ap (get_elem? routes) (omega arith) ∙ h 0 in
      elim (Bool-cases (p r)) [
        | inl e ↦
            rw e (consider_one r i (select (suc i) p rs) best _ (accepts-admits r i here) low rest)
        | inr e ↦ rw e rest
      ]

  pub visit-first :
      (test : List Text → RouteConfig → Bool) (ss : List Text) (before : RouteConfig → Bool)
      → visit (λ u. select 0 (test u) routes) ss (first 0 before routes)
        ≡ first 0 (λ r. before r || any_beginning (λ u. test u r && admits r) ss) routes
  unfolding visit any_beginning
  visit-first test [] before = first_cong _ _ routes 0 (λ r. ground arith)
  visit-first test (s ∷ ss) before =
      ap (visit (λ u. select 0 (test (s ∷ u)) routes) ss) (
        consider_routes-first (test (s ∷ [])) routes 0 (first 0 before routes)
          (λ k. ap (get_elem? routes) (omega arith))
        ∙ better-first before (λ r. test (s ∷ []) r && admits r) routes 0)
      ∙ visit-first (λ u. test (s ∷ u)) ss (λ r. before r || (test (s ∷ []) r && admits r))
      ∙ first_cong _ _ routes 0 (λ r. ground arith)
