-- ===== src/Routes/Index/Descent.antt =====
-- Descending by the segments of a prefix, and creating what is missing.
use lagos.Prelude.{
  ℕ, ◌≡◌, ◌<◌, inl, inr, ◌↔◌, refl, ap, ◌∙◌, Bool, true, false, ◌&&◌, none, some, List, [], ◌∷◌,
  length, Option-cases, arith,
}
use lagos.Text.{Text, text_eq, text_eq_iff, text_eq_refl}
use lagos.Routes.Index.{Node, child_at, allocate, descend}
use lagos.Routes.Index.Arena.{routes_at, length-allocate}
use lagos.Routes.Index.Tree.{
  IsTree, walk, content, routes_of, allocate-IsTree, content_kept, edge_kept, new_edge_there,
}

-- What descending by `segments` from `current` leaves.
pub record Descended (nodes : List Node) (current : ℕ) (segments : List Text)
    (result : List Node × ℕ) : Type 0 where
  pub tree : IsTree result.0
  pub end_inside : result.1 < length result.0
  pub edges : (n c : ℕ) (s : Text) → child_at nodes n s ≡ some c → child_at result.0 n s ≡ some c
  pub reaches : walk result.0 current segments ≡ some result.1
  pub same : (n : ℕ) (ss : List Text) → content result.0 n ss ≡ content nodes n ss

pub walk-some :
    (nodes : List Node) (n c : ℕ) (s : Text) (ss : List Text)
    → child_at nodes n s ≡ some c
    → walk nodes n (s ∷ ss) ≡ walk nodes c ss
unfolding walk
walk-some nodes n c s ss h = ground arith

pub walk-none :
    (nodes : List Node) (n : ℕ) (s : Text) (ss : List Text)
    → child_at nodes n s ≡ none
    → walk nodes n (s ∷ ss) ≡ none
unfolding walk
walk-none nodes n s ss h = ground arith

pub content_nowhere :
    (nodes : List Node) (n : ℕ) (ss : List Text) → walk nodes n ss ≡ none → content nodes n ss ≡ []
unfolding content routes_of
content_nowhere nodes n ss h = ap (routes_of nodes) h

pub content_at :
    (nodes : List Node) (n k : ℕ) (ss : List Text)
    → walk nodes n ss ≡ some k
    → content nodes n ss ≡ routes_at nodes k
unfolding content routes_of
content_at nodes n k ss h = ap (routes_of nodes) h

pub descend-Descended :
    (segments : List Text) (nodes : List Node) (current : ℕ)
    → IsTree nodes
    → current < length nodes
    → Descended nodes current segments (descend nodes current segments)
unfolding descend
descend-Descended [] nodes current t inside = record {
  tree = t;
  end_inside = inside;
  edges = λ n c s h. h;
  reaches = unfold walk in refl;
  same = λ n ss. refl;
}
descend-Descended (segment ∷ segments) nodes current t inside =
    elim (Option-cases (child_at nodes current segment)) [
      | inl e ↦
          let grown = allocate nodes current segment in
          let t' = allocate-IsTree nodes t current segment inside e in
          let d =
            descend-Descended segments grown (length nodes) t'
              (omega (arith, length-allocate nodes current segment inside)) in
          rw (e, descend)
            (record {
              tree = d.tree;
              end_inside = d.end_inside;
              edges = λ n c s h. d.edges n c s (edge_kept nodes t current segment inside e n c s h);
              reaches =
                  walk-some _ current (length nodes) segment segments (
                    d.edges current (length nodes) segment
                      (new_edge_there nodes t current segment inside e))
                  ∙ d.reaches;
              same = λ n ss. d.same n ss ∙ content_kept nodes t current segment inside e ss n;
            })
      | inr (c, e) ↦
          let d = descend-Descended segments nodes c t (t.inside current c segment e) in
          rw (e, descend)
            (record {
              tree = d.tree;
              end_inside = d.end_inside;
              edges = d.edges;
              reaches =
                  walk-some _ current c segment segments (d.edges current c segment e) ∙ d.reaches;
              same = d.same;
            })
    ]

-- Lists of segments compared.
unfoldable pub segments_eq : List Text → List Text → Bool
segments_eq [] [] = true
segments_eq [] (t ∷ ts) = false
segments_eq (s ∷ ss) [] = false
segments_eq (s ∷ ss) (t ∷ ts) = text_eq s t && segments_eq ss ts

eq_of_segments_eq : (ss ts : List Text) → segments_eq ss ts ≡ true → ss ≡ ts
unfolding segments_eq
eq_of_segments_eq [] [] h = refl
eq_of_segments_eq [] (t ∷ ts) h = cc
eq_of_segments_eq (s ∷ ss) [] h = cc
eq_of_segments_eq (s ∷ ss) (t ∷ ts) h = ground (arith, eq_of_segments_eq ss ts, text_eq_iff s t)

segments_eq_refl : (ss : List Text) → segments_eq ss ss ≡ true
unfolding segments_eq
segments_eq_refl [] = refl
segments_eq_refl (s ∷ ss) = rw (text_eq_refl s, segments_eq_refl ss)

pub segments_eq_iff : (ss ts : List Text) → (segments_eq ss ts ≡ true) ↔ (ss ≡ ts)
segments_eq_iff ss ts = (eq_of_segments_eq ss ts, λ e. rw e (segments_eq_refl ts))
