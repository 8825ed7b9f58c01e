-- ===== src/Headers/Forwarded.antt =====
-- Which addresses of a forwarded chain are believed.
use mathlib.Core.List.{map-append}
use lagos.Prelude.{
  length-map, length-drop, Bool-cases, ℕ, suc, ◌+◌, ◌-◌, ◌==◌, ◌≡◌, ◌≤◌, ◌⊎◌, inl, inr, refl, ltb,
  if◌then◌else◌, Bool, true, false, ◌||◌, Option, none, some, List, [], ◌∷◌, ◌++◌, map, all, length,
  drop, length-append, arith,
}
use lagos.Text.Splitting.{split-append_separator}
use lagos.Text.{trim, Text, split, join, codes, is_empty}
use lagos.Headers.{
  trusted_suffix, trusted_entries, chain_entries, client_address, forwarded_for, first,
  forwarded_for_chain,
}

-- Counting from the right: a prefix does not matter.
drop-append : (k : ℕ) (xs ys : List Text) → drop (length xs + k) (xs ++ ys) ≡ drop k ys
drop-append k [] ys = ground arith
drop-append k (x ∷ xs) ys =
    let e : length (x ∷ xs) + k ≡ suc (length xs + k) = omega arith in rw e (drop-append k xs ys)

drop_suffix :
    (n : ℕ) (xs ys : List Text)
    → n ≤ length ys
    → drop (length (xs ++ ys) - n) (xs ++ ys) ≡ drop (length ys - n) ys
drop_suffix n xs ys h =
    let e : length (xs ++ ys) - n ≡ length xs + (length ys - n) =
      omega (arith, length-append xs ys) in
    rw e (drop-append (length ys - n) xs ys)

enough :
    (n : ℕ) (entries : List Text) → (n == 0 || ltb (length entries) n) ≡ false → n ≤ length entries
enough n entries h = ground arith

-- The addresses as a header spells them, if there are any.
abbrev pub listed : List Text → Option Text
listed [] = none
listed (a ∷ more) = some (join (codes ", ") (a ∷ more))

listed_lem :
    (chain : List Text)
    → (if is_empty chain then none else some (join (codes ", ") chain)) ≡ listed chain
listed_lem [] = refl
listed_lem (a ∷ more) = refl

module _ (is_ip : Text → Bool) where
  trusted_entries-append :
      (xs ys : List Text) (peer : Text) (n : ℕ)
      → n ≤ length ys
      → trusted_entries is_ip (xs ++ ys) peer n ≡ trusted_entries is_ip ys peer n
  unfolding trusted_entries
  trusted_entries-append xs ys peer n h = ground (arith, drop_suffix n xs ys h, length-append xs ys)

  -- However a caller pads the chain in front of the entries that the trusted proxies appended, the
  -- believed addresses are the same.
  pub forged_prefix_ignored :
      (forged real : Text) (peer : Option Text) (trusted_proxies : ℕ)
      → trusted_proxies ≤ length (split b',' real)
      → trusted_suffix is_ip (some (forged ++ b',' ∷ real)) peer trusted_proxies
        ≡ trusted_suffix is_ip (some real) peer trusted_proxies
  unfolding trusted_suffix chain_entries
  forged_prefix_ignored forged real none n h = refl
  forged_prefix_ignored forged real (some peer) n h =
      rw (split-append_separator b',' forged real, map-append)
        (trusted_entries-append (map trim (split b',' forged)) (map trim (split b',' real)) peer n
          (omega (arith, length-map (split b',' real) trim)))

  -- What is believed is the socket peer alone, or as many addresses as there are trusted proxies
  -- with the socket peer behind them.
  trusted_entries_sound :
      (entries : List Text) (peer : Text) (n : ℕ)
      → (init : List Text) × (trusted_entries is_ip entries peer n ≡ init ++ peer ∷ [])
        × (all is_ip init ≡ true)
        × ((length init ≡ 0) ⊎ (length init ≡ n))
  unfolding trusted_entries
  trusted_entries_sound entries peer n =
      let suffix = drop (length entries - n) entries in
      elim (Bool-cases (n == 0 || ltb (length entries) n)) [
        | inl e ↦ ([], rw e, refl, inl refl)
        | inr e ↦ elim (Bool-cases (all is_ip suffix)) [
          | inl good ↦ (
            suffix,
            rw (e, good),
            good,
            inr (omega (arith, length-drop _ entries, enough n entries e)),
          )
          | inr bad ↦ ([], rw (e, bad), refl, inl refl)
        ]
      ]

  -- Whatever the chain, the addresses believed are the socket peer, behind as many valid addresses
  -- as there are trusted proxies or behind none.
  pub trusted_suffix_sound :
      (chain : Option Text) (peer : Text) (trusted_proxies : ℕ)
      → (init : List Text) × (trusted_suffix is_ip chain (some peer) trusted_proxies
          ≡ init ++ peer ∷ [])
        × (all is_ip init ≡ true)
        × ((length init ≡ 0) ⊎ (length init ≡ trusted_proxies))
  unfolding trusted_suffix
  trusted_suffix_sound chain peer n = trusted_entries_sound (chain_entries chain) peer n

  -- The address in `X-Real-IP` is the address that a limiter keyed by address counts, for the same
  -- request, and the first of the addresses that `X-Forwarded-For` lists, separated by commas; where
  -- there is no address, neither header is sent.
  pub real_ip-eq-client_address :
      (headers : List (Option Text)) (peer : Option Text) (trusted_proxies : ℕ)
      → ((forwarded_for is_ip headers peer trusted_proxies).1
          ≡ client_address is_ip (forwarded_for_chain headers) peer trusted_proxies)
        × (addresses : List Text) × ((forwarded_for is_ip headers peer trusted_proxies).0
            ≡ listed addresses)
        × ((forwarded_for is_ip headers peer trusted_proxies).1 ≡ first addresses)
  unfolding forwarded_for client_address trusted_suffix
  real_ip-eq-client_address headers none n = (refl, [], refl, refl)
  real_ip-eq-client_address headers (some peer) n =
      let prior = if ltb 0 n then forwarded_for_chain headers else none in
      (
        ground arith,
        trusted_entries is_ip (chain_entries prior) peer n,
        listed_lem (trusted_entries is_ip (chain_entries prior) peer n),
        refl,
      )

  -- With no trusted proxy the chain of the request is replaced by the socket peer.
  pub edge_replaces_chain :
      (headers : List (Option Text)) (peer : Text)
      → forwarded_for is_ip headers (some peer) 0 ≡ (some peer, some peer)
  unfolding forwarded_for trusted_suffix trusted_entries join
  edge_replaces_chain headers peer = refl
