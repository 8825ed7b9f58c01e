-- ===== src/Cache/Writing.antt =====
-- What a call of `Miss` makes of the fill budget, cache/storage.rs.
use lagos.Prelude.{
  ℕ, ◌+◌, ◌^◌, ◌≡◌, ◌≤◌, ◌<◌, ltb, leb, refl, sym, true, false, ◌&&◌, Option, none, some, ◌++◌,
  length, length-append, usize_max, saturating_add, wrapping_sub_exact, Bool-cases, inl, inr, ◌⊎◌,
  arith, if_cases, subst,
}
use lagos.Cache.{Bytes, MemoryStorage, Miss, reserve, release, abandon, write_body, write_reserved}

-- What a call makes of the storage, with a fill that held `before` bytes and holds `after` now.
pub record Settled {Cache : Type 0} (s s' : MemoryStorage Cache) (before after : ℕ) : Type 0 where
  pub count : s'.filling + before ≡ s.filling + after
  pub limit : s'.max_fill_bytes ≡ s.max_fill_bytes
  pub cap : s'.max_object_bytes ≡ s.max_object_bytes
  pub kept : s'.filling ≤ s.max_fill_bytes

module _ {Cache : Type 0} (s : MemoryStorage Cache) (within : s.filling ≤ s.max_fill_bytes)
    (machine : s.max_fill_bytes < 2 ^ 64) where
  pub release-Settled : (n : ℕ) → n ≤ s.filling → Settled s (release n s) n 0
  unfolding release
  release-Settled n h = elim (Bool-cases (ltb 0 n)) [
    | inl e ↦
        let exact = wrapping_sub_exact s.filling n h (omega arith) in
        rw e (record {
          count = omega (arith, exact);
          limit = refl;
          cap = refl;
          kept = omega (arith, exact);
        })
    | inr e ↦ rw e (record { count = ground arith; limit = refl; cap = refl; kept = within })
  ]

  reserve_cases :
      (n : ℕ)
      → (reserve n s ≡ none)
        ⊎ ((s.filling + n ≤ s.max_fill_bytes)
            × (reserve n s ≡ some (record s { filling = s.filling + n })))
  unfolding reserve
  reserve_cases n =
      elim (Bool-cases (ltb (s.filling + n) (2 ^ 64) && leb (s.filling + n) s.max_fill_bytes)) [
        | inl e ↦ inr (ground arith, rw e)
        | inr e ↦ inl (rw e)
      ]

  -- A write leaves the fill abandoned or longer by the chunk, which then fits.
  pub write_body_cases :
      (P : MemoryStorage Cache × Miss → Type 0) (m : Miss) (chunk : Bytes)
      → (m.too_large ≡ true → P (s, m))
      → P (abandon s m)
      → (m.too_large ≡ false
          → saturating_add usize_max (length m.body) (length chunk) ≤ s.max_object_bytes
          → s.filling + length chunk ≤ s.max_fill_bytes
          → P (
            record s { filling = s.filling + length chunk },
            record m { body = m.body ++ chunk },
          ))
      → P (write_body s m chunk)
  unfolding write_body write_reserved
  write_body_cases P m chunk already over fits =
      let long = saturating_add usize_max (length m.body) (length chunk) in
      if_cases P (s, m) _ m.too_large already
        (λ going.
          if_cases P (abandon s m) _ (ltb s.max_object_bytes long) (λ e. over)
            (λ fit. elim (reserve_cases (length chunk)) [
              | inl e ↦
                  subst (λ (r : Option (MemoryStorage Cache)). P (write_reserved s m chunk r))
                    (sym e) over
              | inr (budget, e) ↦
                  subst (λ (r : Option (MemoryStorage Cache)). P (write_reserved s m chunk r))
                    (sym e) (fits going (ground arith) budget)
            ]))

  pub write_body-Settled :
      (m : Miss) (chunk : Bytes)
      → length m.body ≤ s.filling
      → Settled s (write_body s m chunk).0 (length m.body) (length (write_body s m chunk).1.body)
  unfolding abandon
  write_body-Settled m chunk h =
      write_body_cases (λ r. Settled s r.0 (length m.body) (length r.1.body)) m chunk
        (λ e. record { count = refl; limit = refl; cap = refl; kept = within })
        (release-Settled (length m.body) h)
        (λ e fit budget. record {
          count = omega (arith, length-append m.body chunk);
          limit = refl;
          cap = refl;
          kept = budget;
        })

  pub write_body-cap :
      (m : Miss) (chunk : Bytes)
      → length m.body ≤ s.filling
      → length m.body ≤ s.max_object_bytes
      → length (write_body s m chunk).1.body ≤ s.max_object_bytes
  unfolding abandon
  write_body-cap m chunk h k =
      write_body_cases (λ r. length r.1.body ≤ s.max_object_bytes) m chunk (λ e. k) (omega arith)
        (λ e fit budget. omega (arith, length-append m.body chunk, machine))
