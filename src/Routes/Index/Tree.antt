-- ===== src/Routes/Index/Tree.antt =====
-- The arena of routes/index.rs as a tree that grows.
use mathlib.Core.List.{append_assoc, append-nil}
use lagos.Prelude.{
  ℕ, ◌==◌, ◌≡◌, ◌<◌, inl, inr, ◌⊎◌, sym, ap, ◌∙◌, if◌then◌else◌, Option, none, some, List, [], ◌∷◌,
  ◌++◌, length, Option-cases, arith,
}
use lagos.Text.{Text, text_eq_iff, text_eq_refl}
use lagos.Routes.Index.{Node, child_at, allocate}
use lagos.Routes.Index.Arena.{
  routes_at, child_at_bound, child_at_end, routes_at_end, length-allocate, child_at-allocate,
  routes_at-allocate,
}

-- Every node is at the end of one path of segments.
pub record IsTree (nodes : List Node) : Type 0 where
  pub label : ℕ → List Text
  pub label_root : label 0 ≡ []
  pub root : 0 < length nodes
  pub inside : (n c : ℕ) (s : Text) → child_at nodes n s ≡ some c → c < length nodes
  pub edge : (n c : ℕ) (s : Text) → child_at nodes n s ≡ some c → label c ≡ label n ++ s ∷ []

unfoldable pub walk : List Node → ℕ → List Text → Option ℕ
walk nodes n [] = some n
walk nodes n (s ∷ ss) = elim (child_at nodes n s) [ none ↦ none | some c ↦ walk nodes c ss ]

unfoldable pub routes_of : List Node → Option ℕ → List ℕ
routes_of nodes none = []
routes_of nodes (some n) = routes_at nodes n

-- The routes at the end of a path.
unfoldable pub content : List Node → ℕ → List Text → List ℕ
unfolding routes_of
content nodes n ss = routes_of nodes (walk nodes n ss)

pub content-none :
    (nodes : List Node) (n : ℕ) (s : Text) (ss : List Text)
    → child_at nodes n s ≡ none
    → content nodes n (s ∷ ss) ≡ []
unfolding content walk
content-none nodes n s ss h = ground arith

pub content-some :
    (nodes : List Node) (n c : ℕ) (s : Text) (ss : List Text)
    → child_at nodes n s ≡ some c
    → content nodes n (s ∷ ss) ≡ content nodes c ss
unfolding content walk
content-some nodes n c s ss h = ground arith

pub label-walk :
    {nodes : List Node} (t : IsTree nodes) (n m : ℕ) (ss : List Text)
    → walk nodes n ss ≡ some m
    → t.label m ≡ t.label n ++ ss
unfolding walk
label-walk t n m [] h = let same : n ≡ m = ground arith in rw same (sym (append-nil (t.label m)))
label-walk {nodes} t n m (s ∷ ss) h = elim (Option-cases (child_at nodes n s)) [
  | inl e ↦ absurd (ground arith)
  | inr (c, e) ↦
      label-walk t c m ss (rw (e, walk) at h)
      ∙ ap (λ (l : List Text). l ++ ss) (t.edge n c s e)
      ∙ append_assoc (t.label n) (s ∷ []) ss
]

module _ (nodes : List Node) (t : IsTree nodes) (current : ℕ) (segment : Text)
    (inside : current < length nodes) (fresh : child_at nodes current segment ≡ none) where
  relabel : ℕ → List Text
  relabel n = if n == length nodes then t.label current ++ segment ∷ [] else t.label n

  -- An edge after the growth is the new one or an old one.
  new_edge :
      (n c : ℕ) (s : Text)
      → child_at (allocate nodes current segment) n s ≡ some c
      → ((n ≡ current) × (s ≡ segment) × (c ≡ length nodes)) ⊎ (child_at nodes n s ≡ some c)
  new_edge n c s h =
      ground (arith, child_at-allocate nodes current segment inside n s, text_eq_iff segment s)

  inside_grown :
      (n c : ℕ) (s : Text)
      → child_at (allocate nodes current segment) n s ≡ some c
      → c < length (allocate nodes current segment)
  inside_grown n c s h =
      let longer = length-allocate nodes current segment inside in
      elim (new_edge n c s h) [
        | inl (_, _, e) ↦ omega (arith, longer)
        | inr old ↦ omega (arith, longer, t.inside n c s old)
      ]

  edge_grown :
      (n c : ℕ) (s : Text)
      → child_at (allocate nodes current segment) n s ≡ some c
      → relabel c ≡ relabel n ++ s ∷ []
  unfolding relabel
  edge_grown n c s h = elim (new_edge n c s h) [
    | inl (at, same, end) ↦ rw (at, same, end) (ground arith)
    | inr old ↦ ground (arith, t.edge n c s old, t.inside n c s old, child_at_bound nodes n c s old)
  ]

  root_grown : relabel 0 ≡ []
  unfolding relabel
  root_grown = ground (arith, t.label_root, t.root)

  pub allocate-IsTree : IsTree (allocate nodes current segment)
  allocate-IsTree = record {
    label = relabel;
    label_root = root_grown;
    root = omega (arith, length-allocate nodes current segment inside);
    inside = inside_grown;
    edge = edge_grown;
  }

  child_at_new : (s : Text) → child_at (allocate nodes current segment) (length nodes) s ≡ none
  child_at_new s =
      ground (
        arith,
        child_at-allocate nodes current segment inside (length nodes) s,
        child_at_end nodes s,
      )

  content_new : (ss : List Text) → content (allocate nodes current segment) (length nodes) ss ≡ []
  unfolding content walk
  content_new [] =
      routes_at-allocate nodes current segment inside (length nodes) ∙ routes_at_end nodes
  content_new (s ∷ ss) =
      content-none (allocate nodes current segment) (length nodes) s ss (child_at_new s)

  -- An edge of the grown arena that is not the new one was there before.
  kept_edge :
      (n : ℕ) (s : Text)
      → (child_at (allocate nodes current segment) n s ≡ child_at nodes n s)
        ⊎ ((child_at (allocate nodes current segment) n s ≡ some (length nodes))
            × (child_at nodes n s ≡ none))
  kept_edge n s =
      ground (arith, child_at-allocate nodes current segment inside n s, text_eq_iff segment s)

  pub content_kept :
      (ss : List Text) (n : ℕ) → content (allocate nodes current segment) n ss ≡ content nodes n ss
  unfolding content walk
  content_kept [] n = routes_at-allocate nodes current segment inside n
  content_kept (s ∷ ss) n = elim (kept_edge n s) [
    | inr (new, absent) ↦
        content-some (allocate nodes current segment) n (length nodes) s ss new
        ∙ content_new ss
        ∙ sym (content-none nodes n s ss absent)
    | inl same ↦ elim (Option-cases (child_at nodes n s)) [
      | inl e ↦
          content-none (allocate nodes current segment) n s ss (same ∙ e)
          ∙ sym (content-none nodes n s ss e)
      | inr (c, e) ↦
          content-some (allocate nodes current segment) n c s ss (same ∙ e)
          ∙ content_kept ss c
          ∙ sym (content-some nodes n c s ss e)
    ]
  ]

  -- Edges are never lost.
  pub edge_kept :
      (n c : ℕ) (s : Text)
      → child_at nodes n s ≡ some c
      → child_at (allocate nodes current segment) n s ≡ some c
  edge_kept n c s h = ground (arith, kept_edge n s)

  pub new_edge_there :
      child_at (allocate nodes current segment) current segment ≡ some (length nodes)
  new_edge_there =
      ground (
        arith,
        child_at-allocate nodes current segment inside current segment,
        text_eq_refl segment,
      )
