-- ===== src/Cache/Reading.antt =====
-- Reading a published body in chunks, `Hit` of cache/storage.rs.
use lagos.Prelude.{
  ℕ, zero, suc, ◌+◌, ◌-◌, ◌≡◌, ◌≤◌, ◌<◌, min, max, leb, refl, sym, ap, ◌∙◌, Option, none, some,
  List, [], ◌∷◌, ◌++◌, All, length, length-drop, take, drop, usize_max, saturating_add, if_cases,
  subst, arith,
}
use lagos.Cache.{Bytes, Entry, Hit, hit_of, read_chunk, read_body, seek}

-- The chunks that so many reads return, and the reader after them.
unfoldable pub reads : ℕ → Hit → List Bytes × Hit
reads zero h = ([], h)
reads (suc n) h =
    let (chunk, next) = read_body h in
    let (chunks, last) = reads n next in elim chunk [ none ↦ ([], h) | some c ↦ (c ∷ chunks, last) ]

unfoldable pub joined : List Bytes → Bytes
joined [] = []
joined (c ∷ cs) = c ++ joined cs

length-take : (n : ℕ) (xs : Bytes) → length (take n xs) ≡ min n (length xs)
length-take zero xs = omega arith
length-take (suc n) [] = omega arith
length-take (suc n) (x ∷ xs) = omega (arith, length-take n xs)

drop_nil : (n : ℕ) → drop {A = ℕ} n [] ≡ []
drop_nil zero = refl
drop_nil (suc n) = refl

take_nil : (n : ℕ) → take {A = ℕ} n [] ≡ []
take_nil zero = refl
take_nil (suc n) = refl

next_index : (a b : ℕ) → suc (a + b) ≡ suc a + b
next_index a b = omega arith

drop-drop : (a r : ℕ) (xs : Bytes) → drop a (drop r xs) ≡ drop (r + a) xs
drop-drop a zero xs = ap (λ (k : ℕ). drop k xs) (omega arith)
drop-drop a (suc r) [] = drop_nil a ∙ sym (drop_nil (suc r + a))
drop-drop a (suc r) (x ∷ xs) = drop-drop a r xs ∙ ap (λ (k : ℕ). drop k (x ∷ xs)) (next_index r a)

take-append-take : (a c : ℕ) (xs : Bytes) → take a xs ++ take c (drop a xs) ≡ take (a + c) xs
take-append-take zero c xs = ap (λ (k : ℕ). take k xs) (omega arith)
take-append-take (suc a) c [] = take_nil c ∙ sym (take_nil (suc a + c))
take-append-take (suc a) c (x ∷ xs) =
    ap (λ (l : Bytes). x ∷ l) (take-append-take a c xs)
    ∙ ap (λ (k : ℕ). take k (x ∷ xs)) (next_index a c)

-- What a reader has left to return.
abbrev pub remaining : Hit → Bytes
remaining h = take (h.end - h.read) (drop h.read h.body)

-- A read that returns something returns a chunk of it that is not empty, and leaves the rest.
record IsStep (h : Hit) (c : Bytes) (next : Hit) : Type 0 where
  some_left : 0 < length c
  bounded : length c ≤ read_chunk
  splits : c ++ remaining next ≡ remaining h
  shorter : (next.end - next.read) + length c ≡ h.end - h.read
  same_end : next.end ≡ h.end
  same_body : next.body ≡ h.body

module _ (h : Hit) (inside : h.end ≤ length h.body) (machine : length h.body ≤ usize_max) where
  stop : ℕ
  stop = min h.end (saturating_add usize_max h.read read_chunk)

  chunk_IsStep :
      h.read < h.end
      → IsStep h (take (stop - h.read) (drop h.read h.body)) (record h { read = stop })
  unfolding stop
  chunk_IsStep more =
      let size = length-take (stop - h.read) (drop h.read h.body) in
      let rest = length-drop h.read h.body in
      record {
        some_left = omega (arith, size, rest);
        bounded = omega (arith, size, rest);
        splits =
            ap (λ (l : Bytes). take (stop - h.read) (drop h.read h.body) ++ take (h.end - stop) l)
              (ap (λ (k : ℕ). drop k h.body) {x = stop} {y = h.read + (stop - h.read)} (omega arith)
                ∙ sym (drop-drop (stop - h.read) h.read h.body))
            ∙ take-append-take (stop - h.read) (h.end - stop) (drop h.read h.body)
            ∙ ap (λ (k : ℕ). take k (drop h.read h.body)) (omega arith);
        shorter = omega (arith, size, rest);
        same_end = refl;
        same_body = refl;
      }

  read_body_cases :
      (P : Option Bytes × Hit → Type 0)
      → (h.end ≤ h.read → P (none, h))
      → ((c : Bytes) (next : Hit) → IsStep h c next → P (some c, next))
      → P (read_body h)
  unfolding read_body stop
  read_body_cases P done more =
      if_cases P (none, h) _ (leb h.end h.read) (λ e. done (ground arith))
        (λ e. more _ _ (chunk_IsStep (ground arith)))

-- Reading to the end: what was left, in chunks that are not too long.
pub record IsWhole (h : Hit) (result : List Bytes × Hit) : Type 0 where
  pub all_of_it : joined result.0 ≡ remaining h
  pub chunked : All (λ c. (0 < length c) × (length c ≤ read_chunk)) result.0
  pub at_end : (read_body result.1).0 ≡ none

ended : (h : Hit) → h.end ≤ h.read → (read_body h).0 ≡ none
unfolding read_body
ended h e = ground arith

nothing_left : (h : Hit) → h.end ≤ h.read → [] ≡ remaining h
nothing_left h e = ap (λ (k : ℕ). take k (drop h.read h.body)) {x = 0} (omega arith)

pub reads-IsWhole :
    (n : ℕ) (h : Hit)
    → h.end ≤ length h.body
    → length h.body ≤ usize_max
    → h.end - h.read < n
    → IsWhole h (reads n h)
unfolding reads joined
reads-IsWhole zero h inside machine enough = absurd (omega arith)
reads-IsWhole (suc n) h inside machine enough =
    read_body_cases h inside machine
      (λ (r : Option Bytes × Hit). IsWhole h (elim r.0 as (λ _. List Bytes × Hit) [
        | none ↦ ([], h)
        | some c ↦ (c ∷ (reads n r.1).0, (reads n r.1).1)
      ]))
      (λ e. record { all_of_it = nothing_left h e; chunked = tt; at_end = ended h e })
      (λ c next s.
        let here =
          subst (λ (k : ℕ). k ≤ length next.body) (sym s.same_end)
            (subst (λ (b : Bytes). h.end ≤ length b) (sym s.same_body) inside) in
        let size = subst (λ (b : Bytes). length b ≤ usize_max) (sym s.same_body) machine in
        let fewer : next.end - next.read < n = omega (arith, s.shorter, s.some_left, enough) in
        let rest = reads-IsWhole n next here size fewer in
        record {
          all_of_it = ap (λ (l : Bytes). c ++ l) rest.all_of_it ∙ s.splits;
          chunked = ((s.some_left, s.bounded), rest.chunked);
          at_end = rest.at_end;
        })

take_all : (xs : Bytes) → take (length xs) xs ≡ xs
take_all [] = refl
take_all (x ∷ xs) = ap (λ (l : Bytes). x ∷ l) (take_all xs)

take_clamped : (k : ℕ) (xs : Bytes) → take (min k (length xs)) xs ≡ take k xs
take_clamped zero xs = ap (λ (n : ℕ). take n xs) {x = min 0 (length xs)} {y = 0} (omega arith)
take_clamped (suc k) [] = take_nil (min (suc k) 0)
take_clamped (suc k) (x ∷ xs) =
    ap (λ (n : ℕ). take n (x ∷ xs)) {x = min (suc k) (suc (length xs))}
      {y = suc (min k (length xs))} (omega arith)
    ∙ ap (λ (l : Bytes). x ∷ l) (take_clamped k xs)

drop_clamped : (k : ℕ) (xs : Bytes) → drop (min k (length xs)) xs ≡ drop k xs
drop_clamped zero xs = ap (λ (n : ℕ). drop n xs) {x = min 0 (length xs)} {y = 0} (omega arith)
drop_clamped (suc k) [] = drop_nil (min (suc k) 0)
drop_clamped (suc k) (x ∷ xs) =
    ap (λ (n : ℕ). drop n (x ∷ xs)) {x = min (suc k) (suc (length xs))}
      {y = suc (min k (length xs))} (omega arith)
    ∙ drop_clamped k xs

clamped :
    (start stop : ℕ) (xs : Bytes)
    → take
        (max (min stop (length xs)) (min start (length xs)) - min start (length xs))
        (drop (min start (length xs)) xs)
      ≡ take (stop - start) (drop start xs)
clamped start stop xs =
    ap
      (λ (l : Bytes).
        take (max (min stop (length xs)) (min start (length xs)) - min start (length xs)) l)
      (drop_clamped start xs)
    ∙ ap (λ (n : ℕ). take n (drop start xs))
        {x = max (min stop (length xs)) (min start (length xs)) - min start (length xs)}
        {y = min (stop - start) (length (drop start xs))} (omega (arith, length-drop start xs))
    ∙ take_clamped (stop - start) (drop start xs)

-- A range that is sought in a published entry is read back exactly, in chunks that are neither
-- empty nor too long, and the reader then is at its end; a range that reaches over the body's end
-- is cut to it, and one that is out of order is empty.
pub range_is_served :
    (entry : Entry) (start stop : ℕ)
    → length entry.body ≤ usize_max
    → let h = seek (hit_of entry) start (some stop) in
      let result = reads (suc (length entry.body)) h in
      (joined result.0 ≡ take (stop - start) (drop start entry.body))
      × All (λ c. (0 < length c) × (length c ≤ read_chunk)) result.0
      × ((read_body result.1).0 ≡ none)
unfolding seek
range_is_served entry start stop machine =
    let h = seek (hit_of entry) start (some stop) in
    let whole = reads-IsWhole (suc (length entry.body)) h (omega arith) machine (omega arith) in
    (whole.all_of_it ∙ clamped start stop entry.body, whole.chunked, whole.at_end)

-- Without a range, the whole body is read back.
pub body_is_served :
    (entry : Entry)
    → length entry.body ≤ usize_max
    → joined (reads (suc (length entry.body)) (hit_of entry)).0 ≡ entry.body
body_is_served entry machine =
    let whole =
      reads-IsWhole (suc (length entry.body)) (hit_of entry) (omega arith) machine (omega arith) in
    whole.all_of_it
    ∙ ap (λ (n : ℕ). take n entry.body) {x = length entry.body - 0} {y = length entry.body}
        (omega arith)
    ∙ take_all entry.body
