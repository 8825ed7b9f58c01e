-- ===== src/Routes/Index/Content.antt =====
-- The content of the index of routes/index.rs after its construction.
use mathlib.Core.List.{append_assoc, append-nil}
use lagos.Prelude.{
  ℕ, zero, suc, ◌==◌, ◌≡◌, ◌≢◌, ◌<◌, inl, inr, refl, sym, ap, ◌∙◌, if◌then◌else◌, none, some, List,
  [], ◌∷◌, ◌++◌, length, modify, Bool-cases, Option-cases, arith,
}
use lagos.Text.{Text}
use lagos.Routes.Table.{RouteConfig}
use lagos.Routes.Index.{
  Node, empty_node, child_at, descend, add_route, segments_of, insert_route, insert_routes,
  build_nodes,
}
use lagos.Routes.Index.Arena.{length-modify, routes_at, routes_at-add_route, child_at-add_route}
use lagos.Routes.Index.Tree.{IsTree, walk, content, content-none, label-walk}
use lagos.Routes.Index.Descent.{
  Descended, walk-some, walk-none, content_nowhere, content_at, descend-Descended, segments_eq,
  segments_eq_iff,
}

module _ (nodes : List Node) (t : IsTree nodes) (m position : ℕ) (segments : List Text)
    (inside : m < length nodes) (end : walk nodes 0 segments ≡ some m) where
  marked : List Node
  marked = modify nodes m (add_route position)

  walk-marked : (ss : List Text) (n : ℕ) → walk marked n ss ≡ walk nodes n ss
  unfolding walk marked
  walk-marked [] n = refl
  walk-marked (s ∷ ss) n = elim (Option-cases (child_at nodes n s)) [
    | inl e ↦
        walk-none marked n s ss (child_at-add_route s nodes m n position ∙ e)
        ∙ sym (walk-none nodes n s ss e)
    | inr (c, e) ↦
        walk-some marked n c s ss (child_at-add_route s nodes m n position ∙ e)
        ∙ walk-marked ss c
        ∙ sym (walk-some nodes n c s ss e)
  ]

  routes_at-marked :
      (k : ℕ)
      → routes_at marked k
        ≡ (if k == m then routes_at nodes k ++ position ∷ [] else routes_at nodes k)
  unfolding marked
  routes_at-marked k = routes_at-add_route nodes m k position inside

  marked-IsTree : IsTree marked
  unfolding marked
  marked-IsTree =
      let size = length-modify nodes m (add_route position) in
      record {
        label = t.label;
        label_root = t.label_root;
        root = omega (arith, size, t.root);
        inside = λ n c s h.
            omega (arith, size, t.inside n c s (sym (child_at-add_route s nodes m n position) ∙ h));
        edge = λ n c s h. t.edge n c s (sym (child_at-add_route s nodes m n position) ∙ h);
      }

  -- Two paths end at the same node exactly when they are the same path.
  same_end :
      (ss : List Text) (k : ℕ) → walk nodes 0 ss ≡ some k → (k == m) ≡ segments_eq segments ss
  same_end ss k e =
      let at_k : t.label k ≡ ss =
        label-walk t 0 k ss e ∙ ap (λ (l : List Text). l ++ ss) t.label_root in
      let at_m : t.label m ≡ segments =
        label-walk t 0 m segments end ∙ ap (λ (l : List Text). l ++ segments) t.label_root in
      let back : segments ≡ ss → some k ≡ some m =
        λ same. sym e ∙ ap (walk nodes 0) (sym same) ∙ end in
      let forth : k ≡ m → segments ≡ ss = λ same. sym at_m ∙ ap t.label (sym same) ∙ at_k in
      ground (arith, segments_eq_iff segments ss, back, forth)

  -- Only the end of the path of `segments` holds one more position.
  content-marked :
      (ss : List Text)
      → content marked 0 ss ≡ (
          if segments_eq segments ss
          then content nodes 0 ss ++ position ∷ []
          else content nodes 0 ss)
  content-marked ss = elim (Option-cases (walk nodes 0 ss)) [
    | inl e ↦
        let apart : segments ≢ ss = λ same. absurd (ground (arith, ap (walk nodes 0) same)) in
        ground (
          arith,
          content_nowhere marked 0 ss (walk-marked ss 0 ∙ e),
          content_nowhere nodes 0 ss e,
          segments_eq_iff segments ss,
        )
    | inr (k, e) ↦ ground (
      arith,
      content_at marked 0 k ss (walk-marked ss 0 ∙ e),
      content_at nodes 0 k ss e,
      routes_at-marked k,
      same_end ss k e,
    )
  ]

-- The positions, from `position` on, of the routes whose prefix has the segments `ss`.
unfoldable pub positions : ℕ → List Text → List RouteConfig → List ℕ
positions position ss [] = []
positions position ss (r ∷ rs) =
    let rest = positions (suc position) ss rs in
    if segments_eq (segments_of r.prefix) ss then position ∷ rest else rest

module _ (nodes : List Node) (t : IsTree nodes) (position : ℕ) (prefix : Text) where
  inserted : Descended nodes 0 (segments_of prefix) (descend nodes 0 (segments_of prefix))
  inserted = descend-Descended (segments_of prefix) nodes 0 t t.root

  insert_route-IsTree : IsTree (insert_route nodes position prefix)
  unfolding insert_route marked
  insert_route-IsTree =
      marked-IsTree _ inserted.tree _ position (segments_of prefix) inserted.end_inside
        inserted.reaches

  content-insert_route :
      (ss : List Text)
      → content (insert_route nodes position prefix) 0 ss ≡ (
          if segments_eq (segments_of prefix) ss
          then content nodes 0 ss ++ position ∷ []
          else content nodes 0 ss)
  unfolding insert_route marked
  content-insert_route ss =
      content-marked _ inserted.tree _ position (segments_of prefix) inserted.end_inside
        inserted.reaches ss
      ∙ rw (inserted.same 0 ss) refl

content-insert_routes :
    (routes : List RouteConfig) (nodes : List Node) (position : ℕ) (ss : List Text)
    → IsTree nodes
    → content (insert_routes nodes position routes) 0 ss
      ≡ content nodes 0 ss ++ positions position ss routes
unfolding insert_routes positions
content-insert_routes [] nodes position ss t = sym (append-nil (content nodes 0 ss))
content-insert_routes (r ∷ rs) nodes position ss t =
    content-insert_routes rs (insert_route nodes position r.prefix) (suc position) ss
      (insert_route-IsTree nodes t position r.prefix)
    ∙ elim (Bool-cases (segments_eq (segments_of r.prefix) ss)) [
      | inl e ↦
          rw (content-insert_route nodes t position r.prefix ss, e)
            (append_assoc (content nodes 0 ss) (position ∷ []) (positions (suc position) ss rs))
      | inr e ↦ rw (content-insert_route nodes t position r.prefix ss, e)
    ]

root_edge : (n : ℕ) (s : Text) → child_at (empty_node ∷ []) n s ≡ none
unfolding child_at
root_edge zero s = refl
root_edge (suc n) s = refl

root-IsTree : IsTree (empty_node ∷ [])
root-IsTree = record {
  label = λ n. [];
  label_root = refl;
  root = omega arith;
  inside = λ n c s h. absurd (ground (arith, root_edge n s));
  edge = λ n c s h. absurd (ground (arith, root_edge n s));
}

root_content : (ss : List Text) → content (empty_node ∷ []) 0 ss ≡ []
unfolding content walk routes_at
root_content [] = refl
root_content (s ∷ ss) = content-none (empty_node ∷ []) 0 s ss (root_edge 0 s)

-- At the end of each path the index holds the positions of exactly the routes whose prefix has
-- the path's segments, in the order of the table.
pub content-build_nodes :
    (routes : List RouteConfig) (ss : List Text)
    → content (build_nodes routes) 0 ss ≡ positions 0 ss routes
unfolding build_nodes
content-build_nodes routes ss =
    content-insert_routes routes (empty_node ∷ []) 0 ss root-IsTree
    ∙ ap (λ (l : List ℕ). l ++ positions 0 ss routes) (root_content ss)
