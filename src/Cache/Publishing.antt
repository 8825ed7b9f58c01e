-- ===== src/Cache/Publishing.antt =====
-- What `Miss` of cache/storage.rs publishes of what is written to it.
use mathlib.Core.List.{append_assoc, append-nil}
use lagos.Prelude.{
  ℕ, ◌≡◌, ◌⊎◌, inl, inr, refl, sym, ap, ◌∙◌, subst, ltb, true, false, Option, none, some, List, [],
  ◌∷◌, ◌++◌, length, if_cases,
}
use lagos.Cache.{
  Bytes, Entry, MemoryStorage, Miss, get_miss_handler, reserve, release, abandon, drop_miss,
  write_body, write_reserved, finish,
}
use lagos.Cache.Reading.{joined}

same_entry :
    {a a' b b' c c' : Bytes}
    → a ≡ a'
    → b ≡ b'
    → c ≡ c'
    → ◌≡◌ {A = Entry}
        (record { internal = a; header = b; body = c })
        (record { internal = a'; header = b'; body = c' })
same_entry p q r = rw (p, q, r) refl

-- A fill is abandoned for good and holds nothing, or it holds all that was written.
abbrev pub Holds : Miss → Bytes → Type 0
Holds m bytes = ((m.too_large ≡ true) × (m.body ≡ [])) ⊎ ((m.too_large ≡ false) × (m.body ≡ bytes))

-- Writing changes nothing else of the fill.
abbrev SameMeta : Miss → Miss → Type 0
SameMeta m n = (m.key ≡ n.key) × (m.internal ≡ n.internal) × (m.header ≡ n.header)

complete : (m : Miss) (bytes : Bytes) → Holds m bytes → m.too_large ≡ false → m.body ≡ bytes
complete m bytes (inl (f, _)) e = cc
complete m bytes (inr (_, f)) e = f

module _ {Cache : Type 0} where
  -- The writes of one fill, each with the storage as the other fills left it.
  unfoldable pub writes : Miss → List (MemoryStorage Cache × Bytes) → Miss
  writes m [] = m
  writes m ((s, chunk) ∷ rest) = writes (write_body s m chunk).1 rest

  abbrev pub chunks : List (MemoryStorage Cache × Bytes) → List Bytes
  chunks [] = []
  chunks ((s, chunk) ∷ rest) = chunk ∷ chunks rest

  write_body-Holds :
      (s : MemoryStorage Cache) (m : Miss) (bytes chunk : Bytes)
      → Holds m bytes
      → Holds (write_body s m chunk).1 (bytes ++ chunk) × SameMeta (write_body s m chunk).1 m
  unfolding write_body write_reserved abandon
  write_body-Holds s m bytes chunk h =
      let P = λ (r : MemoryStorage Cache × Miss). Holds r.1 (bytes ++ chunk) × SameMeta r.1 m in
      if_cases P (s, m) _ m.too_large (λ e. (still e h, (refl, refl, refl)))
        (λ going.
          if_cases P (abandon s m) _ _ (λ e. over) (λ e. reserved going (reserve (length chunk) s)))
    where
      over : Holds (abandon s m).1 (bytes ++ chunk) × SameMeta (abandon s m).1 m
      over = (inl (refl, refl), (refl, refl, refl))

      still : m.too_large ≡ true → Holds m bytes → Holds m (bytes ++ chunk)
      still e (inl k) = inl k
      still e (inr (f, _)) = cc

      extended : m.too_large ≡ false → Holds m bytes → m.body ++ chunk ≡ bytes ++ chunk
      extended e (inl (f, _)) = cc
      extended e (inr (_, f)) = ap (λ (b : Bytes). b ++ chunk) f

      reserved :
          m.too_large ≡ false
          → (r : Option (MemoryStorage Cache))
          → Holds (write_reserved s m chunk r).1 (bytes ++ chunk)
            × SameMeta (write_reserved s m chunk r).1 m
      reserved going none = over
      reserved going (some s') = (inr (going, extended going h), (refl, refl, refl))

  writes-Holds :
      (ws : List (MemoryStorage Cache × Bytes)) (m : Miss) (bytes : Bytes)
      → Holds m bytes
      → Holds (writes m ws) (bytes ++ joined (chunks ws)) × SameMeta (writes m ws) m
  unfolding writes joined
  writes-Holds [] m bytes h =
      (subst (λ (b : Bytes). Holds m b) (sym (append-nil bytes)) h, (refl, refl, refl))
  writes-Holds ((s, chunk) ∷ ws) m bytes h =
      let (k, (a, b, c)) = write_body-Holds s m bytes chunk h in
      let (l, (d, e, f)) = writes-Holds ws (write_body s m chunk).1 (bytes ++ chunk) k in
      (
        subst (λ (x : Bytes). Holds (writes (write_body s m chunk).1 ws) x)
            (append_assoc bytes chunk (joined (chunks ws))) l,
        (d ∙ a, e ∙ b, f ∙ c),
      )

  release-entries : (n : ℕ) (s : MemoryStorage Cache) → (release n s).entries ≡ s.entries
  unfolding release
  release-entries n s =
      if_cases (λ (r : MemoryStorage Cache). r.entries ≡ s.entries) _ s (ltb 0 n) (λ e. refl)
        (λ e. refl)

  -- Whatever the other fills do in between, finishing a fill publishes one entry under its key, with
  -- its metadata and exactly the concatenation of all the chunks that were written to it; or the
  -- fill was abandoned, and the entries stay as they are.
  pub all_or_nothing :
      (insert : Bytes → Entry → Cache → Cache) (key internal header : Bytes)
      (ws : List (MemoryStorage Cache × Bytes)) (s : MemoryStorage Cache)
      → let result = finish insert s (writes (get_miss_handler key internal header) ws) in
        let entry : Entry = record {
          internal = internal;
          header = header;
          body = joined (chunks ws);
        } in
        ((result.1 ≡ none) × (result.0.entries ≡ s.entries))
        ⊎ ((result.1 ≡ some entry) × (result.0.entries ≡ insert key entry s.entries))
  unfolding finish get_miss_handler drop_miss
  all_or_nothing insert key internal header ws s =
      let m = writes (get_miss_handler key internal header) ws in
      let (held, (k, i, h)) =
        writes-Holds ws (get_miss_handler key internal header) [] (inr (refl, refl)) in
      let entry : Entry = record {
        internal = internal;
        header = header;
        body = joined (chunks ws);
      } in
      let P = λ (r : MemoryStorage Cache × Option Entry).
        ((r.1 ≡ none) × (r.0.entries ≡ s.entries))
        ⊎ ((r.1 ≡ some entry) × (r.0.entries ≡ insert key entry s.entries)) in
      if_cases P _ _ m.too_large (λ e. inl (refl, release-entries (length m.body) s))
        (λ e.
          let same : ◌≡◌ {A = Entry}
              (record { internal = m.internal; header = m.header; body = m.body }) entry =
            same_entry i h (complete m (joined (chunks ws)) held e) in
          inr (
            ap some same,
            ap
                  (λ (b : Bytes).
                    insert b (record { internal = m.internal; header = m.header; body = m.body })
                      (release (length m.body) s).entries)
                  k
                ∙ ap (λ (x : Entry). insert key x (release (length m.body) s).entries) same
                ∙ ap (insert key entry) (release-entries (length m.body) s),
          ))
