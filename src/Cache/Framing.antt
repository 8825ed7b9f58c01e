-- ===== src/Cache/Framing.antt =====
-- What the keys and the sharing rules of crates/lagos-core/src/cache/policy.rs keep apart.
use lagos.Prelude.{
  ℕ, zero, suc, ◌/◌, ◌%◌, ◌<◌, ◌^◌, ◌≡◌, refl, sym, ap, ◌∙◌, List, [], ◌∷◌, ◌++◌, length,
  length-append, ◌≢◌, All, arith,
}
use mathlib.Core.List.{append-nil, append_assoc}
use lagos.Cache.Policy.{Bytes, to_be_bytes, frame, frame_all}

length-to_be_bytes : (k n : ℕ) → length (to_be_bytes k n) ≡ k
unfolding to_be_bytes
length-to_be_bytes zero n = refl
length-to_be_bytes (suc k) n =
    omega (
      arith,
      length-append (to_be_bytes k (n / 256)) (n % 256 ∷ []),
      length-to_be_bytes k (n / 256),
    )

append_inj : (a b xs ys : Bytes) → length a ≡ length b → a ++ xs ≡ b ++ ys → (a ≡ b) × (xs ≡ ys)
append_inj [] [] xs ys l e = (refl, e)
append_inj [] (y ∷ b) xs ys l e = absurd (omega arith)
append_inj (x ∷ a) [] xs ys l e = absurd (omega arith)
append_inj (x ∷ a) (y ∷ b) xs ys l e =
    let rest = append_inj a b xs ys (omega arith) cc in (cc, rest.1)

-- It takes as many bytes, of base 256.
FitsIn : ℕ → ℕ → Type 0
FitsIn zero n = n ≡ 0
FitsIn (suc k) n = FitsIn k (n / 256)

to_be_bytes_inj : (k m n : ℕ) → FitsIn k m → FitsIn k n → to_be_bytes k m ≡ to_be_bytes k n → m ≡ n
unfolding to_be_bytes FitsIn
to_be_bytes_inj zero m n f g e = f ∙ sym g
to_be_bytes_inj (suc k) m n f g e =
    let parts =
      append_inj (to_be_bytes k (m / 256)) (to_be_bytes k (n / 256)) (m % 256 ∷ []) (n % 256 ∷ [])
        (length-to_be_bytes k (m / 256) ∙ sym (length-to_be_bytes k (n / 256))) e in
    let high = to_be_bytes_inj k (m / 256) (n / 256) f g parts.0 in
    let low : m % 256 ≡ n % 256 = cc in omega arith

word-FitsIn : (n : ℕ) → n < 2 ^ 64 → FitsIn 8 n
unfolding FitsIn
word-FitsIn n h = omega arith

frame_all-append : (out : Bytes) (vs : List Bytes) → frame_all out vs ≡ out ++ frame_all [] vs
unfolding frame_all frame
frame_all-append out [] = sym (append-nil out)
frame_all-append out (v ∷ vs) =
    let framed = to_be_bytes 8 (length v) ++ v in
    frame_all-append (out ++ framed) vs
    ∙ append_assoc out framed (frame_all [] vs)
    ∙ ap (λ (b : Bytes). out ++ b) (sym (frame_all-append framed vs))

-- The framed values, read from the left.
framed_first :
    (v : Bytes) (vs : List Bytes)
    → frame_all [] (v ∷ vs) ≡ to_be_bytes 8 (length v) ++ (v ++ frame_all [] vs)
unfolding frame_all frame
framed_first v vs =
    frame_all-append (to_be_bytes 8 (length v) ++ v) vs
    ∙ append_assoc (to_be_bytes 8 (length v)) v (frame_all [] vs)

abbrev pub IsSized : Bytes → Type 0
IsSized value = length value < 2 ^ 64

never_empty : (v : Bytes) (vs : List Bytes) → frame_all [] [] ≢ frame_all [] (v ∷ vs)
unfolding frame_all
never_empty v vs e =
    let l = length-append (to_be_bytes 8 (length v)) (v ++ frame_all [] vs) in
    let k = length-to_be_bytes 8 (length v) in
    let none_left : 0 ≡ length (to_be_bytes 8 (length v) ++ (v ++ frame_all [] vs)) =
      ap (λ (b : Bytes). length b) (e ∙ framed_first v vs) in
    omega arith

pub frame_all_inj :
    (vs ws : List Bytes)
    → All IsSized vs
    → All IsSized ws
    → frame_all [] vs ≡ frame_all [] ws
    → vs ≡ ws
frame_all_inj [] [] p q e = refl
frame_all_inj [] (w ∷ ws) p q e = absurd (never_empty w ws e)
frame_all_inj (v ∷ vs) [] p q e = absurd (never_empty v vs (sym e))
frame_all_inj (v ∷ vs) (w ∷ ws) p q e =
    let sizes =
      append_inj (to_be_bytes 8 (length v)) (to_be_bytes 8 (length w)) (v ++ frame_all [] vs)
        (w ++ frame_all [] ws)
        (length-to_be_bytes 8 (length v) ∙ sym (length-to_be_bytes 8 (length w)))
        (sym (framed_first v vs) ∙ e ∙ framed_first w ws) in
    let sized =
      to_be_bytes_inj 8 (length v) (length w) (word-FitsIn (length v) p.0)
        (word-FitsIn (length w) q.0) sizes.0 in
    let parts = append_inj v w (frame_all [] vs) (frame_all [] ws) sized sizes.1 in
    let here = parts.0 in let rest = frame_all_inj vs ws p.1 q.1 parts.1 in cc
