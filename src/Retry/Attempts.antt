-- ===== src/Retry/Attempts.antt =====
-- How often, and which, requests are sent again.
use lagos.Prelude.{
  if◌then◌else◌, ℕ, suc, ◌+◌, ◌-◌, ◌≡◌, ◌≤◌, ◌<◌, ◌⊎◌, ◌∙◌, inl, inr, Bool-cases, Bool, true, false,
  All, u32_max, usize_max, some, List, [], ◌∷◌, arith,
}
use lagos.Text.{Text}
use lagos.Retry.{
  Policy, transport, Ctx, is_idempotent, should_retry, fail_to_connect, error_while_proxy,
  upstream_peer,
}

-- A retry after a transport error is only ever given to a request whose body can be sent again,
-- whose budget is not spent, and whose method is idempotent or whose route has opted in.
pub should_retry_transport_sound :
    (p : Policy) (made : ℕ) (method : Text) (replayable : Bool)
    → should_retry p transport made method replayable ≡ true
    → (replayable ≡ true)
      × (made < p.attempts)
      × (p.on_transport ≡ true)
      × ((p.non_idempotent ≡ true) ⊎ (is_idempotent method ≡ true))
unfolding should_retry
should_retry_transport_sound p made method replayable h = ground arith

-- On a route with a policy that has not opted in, a request with a method that is not idempotent is
-- never sent again once a connection was established, whatever Pingora would have done.
pub post_is_not_repeated :
    (decide_reuse : Bool → Bool) (ctx : Ctx) (policy : Policy) (client_reused replayable : Bool)
    → ctx.retry ≡ some policy
    → policy.non_idempotent ≡ false
    → is_idempotent ctx.method ≡ false
    → (error_while_proxy decide_reuse ctx client_reused replayable).1 ≡ false
unfolding error_while_proxy
post_is_not_repeated decide_reuse ctx policy client_reused replayable p n i = ground arith

-- How an attempt fails: no connection, where the error may come with a retry mark, or a transport
-- that breaks.
pub data Trouble : Type 0 where
  no_connection broken_transport : Bool → Bool → Trouble

-- The attempts of one request, one after the other: how many addresses `upstream_peer` finds for it,
-- and how it fails.
abbrev pub Attempts : Type 0
Attempts = List (ℕ × Trouble)

abbrev pub mark : Trouble → ℕ
mark (no_connection replayable marked) = if marked then 1 else 0
mark (broken_transport client_reused replayable) = 0

-- How many of the connect errors Pingora itself marks.
abbrev pub marks : Attempts → ℕ
marks [] = 0
marks ((n, t) ∷ later) = mark t + marks later

module _ (decide_reuse : Bool → Bool) where
  -- The handler of each trouble, for the request as `upstream_peer` has left it.
  unfoldable pub handle : Ctx → Trouble → Ctx × Bool
  unfolding fail_to_connect error_while_proxy
  handle ctx (no_connection replayable marked) = fail_to_connect ctx replayable marked
  handle ctx (broken_transport client_reused replayable) =
      error_while_proxy decide_reuse ctx client_reused replayable

  -- How often the request is sent again: the first attempt that fails without a retry is the last.
  unfoldable pub repeats : Ctx → Attempts → ℕ
  unfolding upstream_peer
  repeats ctx [] = 0
  repeats ctx ((n, t) ∷ later) =
      let r = handle (upstream_peer ctx n) t in
      let again = suc (repeats r.0 later) in if r.1 then again else 0

  -- What is left of the budgets: retries of the policy, and further addresses, of which an attempt
  -- has `most` at the most.
  abbrev left : Policy → ℕ → Ctx → ℕ
  left policy most ctx = (policy.attempts - ctx.attempts) + (most - (ctx.dns_failovers + 1))

  handle_spends :
      (ctx : Ctx) (policy : Policy) (most n : ℕ) (t : Trouble)
      → ctx.retry ≡ some policy
      → policy.attempts ≤ u32_max
      → most ≤ usize_max
      → n ≤ most
      → (handle (upstream_peer ctx n) t).1 ≡ true
      → suc (left policy most (handle (upstream_peer ctx n) t).0) ≤ left policy most ctx + mark t
  unfolding handle upstream_peer
  handle_spends ctx policy most n (no_connection replayable marked) r a m b h = ground arith
  handle_spends ctx policy most n (broken_transport client_reused replayable) r a m b h =
      ground arith

  handle_keeps :
      (ctx : Ctx) (n : ℕ) (t : Trouble) → (handle (upstream_peer ctx n) t).0.retry ≡ ctx.retry
  unfolding handle upstream_peer
  handle_keeps ctx n (no_connection replayable marked) = ground arith
  handle_keeps ctx n (broken_transport client_reused replayable) = ground arith

  repeats-le-left :
      (ctx : Ctx) (policy : Policy) (most : ℕ) (attempts : Attempts)
      → ctx.retry ≡ some policy
      → policy.attempts ≤ u32_max
      → most ≤ usize_max
      → All (λ (a : ℕ × Trouble). a.0 ≤ most) attempts
      → repeats ctx attempts ≤ left policy most ctx + marks attempts
  unfolding repeats
  repeats-le-left ctx policy most [] r a m b = omega arith
  repeats-le-left ctx policy most ((n, t) ∷ later) r a m (b, bs) =
      elim (Bool-cases (handle (upstream_peer ctx n) t).1) [
        | inl again ↦
            let ih =
              repeats-le-left (handle (upstream_peer ctx n) t).0 policy most later
                (handle_keeps ctx n t ∙ r) a m bs in
            rw again (omega (arith, handle_spends ctx policy most n t r a m b again, ih))
        | inr last ↦ rw last (omega arith)
      ]

  -- On a route with a policy, a request that starts with nothing spent is sent again at most
  -- `attempts` times by the policy, once for each further address, if `most` bounds the addresses
  -- that each attempt finds, and once for each connect error that Pingora itself marks: whatever else
  -- befalls its attempts and whatever Pingora decides about reused connections.
  pub repeats_bounded :
      (ctx : Ctx) (policy : Policy) (most : ℕ) (attempts : Attempts)
      → ctx.retry ≡ some policy
      → policy.attempts ≤ u32_max
      → most ≤ usize_max
      → All (λ (a : ℕ × Trouble). a.0 ≤ most) attempts
      → ctx.attempts ≡ 0
      → ctx.dns_failovers ≡ 0
      → repeats ctx attempts ≤ policy.attempts + (most - 1) + marks attempts
  repeats_bounded ctx policy most attempts r a m b za zd =
      omega (arith, repeats-le-left ctx policy most attempts r a m b)
