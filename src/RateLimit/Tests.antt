-- ===== src/RateLimit/Tests.antt =====
-- Runs of the limiters, and the properties at concrete inputs, with thousandths for the floating
-- point numbers.
use lagos.Prelude.{
  ℕ, ◌+◌, ◌*◌, ◌≤◌, ◌≡◌, refl, Bool, false, Option, none, some, List, [], ◌∷◌, map, ℤ, pos, Result,
  ok, err, arith,
}
use lagos.Text.{Text, codes}
use lagos.Text.Splitting.{Lacks-of_contains}
use lagos.Config.{RateLimitKey, MissingKey}
use lagos.RateLimit.{Float, Decision, Window, new, check, refuse}
use lagos.RateLimit.Quota.{admitted, quota_is_kept}
use lagos.RateLimit.Thousandths.{thousandths, thousandths-IsIeee}
use lagos.RateLimit.Shared.{
  Shard, Publish, Totals, BackendError, timeout, Entry, Batch, SharedCounters, new_shard, roll_to,
  current_pass, pending_in, check_at,
}
use lagos.RateLimit.Shared.Sync.{apply_shard, fold_reply}
use lagos.RateLimit.Shared.Late.{late_reply_is_in_time}
use lagos.RateLimit.Shared.Passes.{failed_tick_owes_nothing}
use lagos.RateLimit.Shared.Ticks.{Tick, carried, finish_pass, pass_visits_all}
use lagos.RateLimit.Shared.Replica.{Event, request, reply, replica_keeps_quota}
use lagos.RateLimit.Keys.{KeyError}
use lagos.RateLimit.Scoping.{Admission, key_of, routes_share_no_key}
use lagos.RateLimit.Urls.{redact_url, normalize_url}
use lagos.RateLimit.Redaction.{url_of, shown, redact_url-shown}
use lagos.RateLimit.Resp.{vendor_from_info, recached}

abbrev minute : ℕ
minute = 60 * 1_000_000_000

-- Three requests at a limit of two.
third_is_refused : admitted thousandths 2 minute (new 100) (100 ∷ (200 ∷ (300 ∷ []))) ≡ 2
unfolding admitted new
third_is_refused = refl

abbrev times : List ℕ
times = 100 ∷ (200 ∷ (300 ∷ []))

quota_is_kept_example : 0 + admitted thousandths 2 minute (new 100) times ≤ 2
unfolding new
quota_is_kept_example =
    quota_is_kept thousandths thousandths-IsIeee 2 minute (omega arith) (new 100) times
      (omega arith) (omega arith) (omega arith, (omega arith, (omega arith, tt)))

abbrev shard : Shard
shard = record {
  source = 7;
  bucket = 5;
  own_current = 2;
  own_previous = 1;
  remote_current = 0;
  remote_previous = 0;
}

abbrev publish : Publish
publish = record {
  source = 7;
  key = codes "k";
  bucket = 5;
  own_current = 2;
  own_previous = 1;
  interval = minute;
}

abbrev totals : Totals
totals = record { current = 6; previous = 4 }

late_reply_is_in_time_example :
    apply_shard publish totals (roll_to shard 6) ≡ roll_to (apply_shard publish totals shard) 6
late_reply_is_in_time_example = late_reply_is_in_time publish totals shard 6 refl refl (omega arith)

abbrev events : List (Event ℕ)
events = request 500 ∷ (reply publish totals ∷ (request 600 ∷ []))

replica_keeps_quota_example :
    2 + lagos.RateLimit.Shared.Replica.admitted thousandths 3 minute shard events ≤ 3
replica_keeps_quota_example =
    replica_keeps_quota thousandths thousandths-IsIeee 3 minute (omega arith) shard events
      (omega arith) (refl, (refl, tt))

abbrev counters : SharedCounters
counters = record {
  shards = (codes "a", 0) ∷ ((codes "b", 1) ∷ ((codes "c", 2) ∷ []));
  cells = new_shard 1 ∷ (new_shard 2 ∷ (new_shard 3 ∷ []));
  prefix = codes "p:";
  interval = minute;
  limit = 2;
  batch = 2;
  pass = [];
}

-- The clock is not readable at first, the second tick fails, and the others are answered.
abbrev answer : List Publish → Result (List Totals) BackendError
answer publishes = ok (map (λ p. totals) publishes)

abbrev ticks : List Tick
ticks =
    (none, answer)
    ∷ ((some minute, λ p. err (timeout 250))
        ∷ ((some minute, answer) ∷ ((some minute, answer) ∷ ((some (3 * minute), answer) ∷ []))))

three_carried : carried thousandths counters ticks ≡ 3
unfolding carried lagos.RateLimit.Shared.pending lagos.RateLimit.Shared.Sync.sync_once
three_carried = refl

pass_visits_all_example : finish_pass thousandths counters ticks ≡ some (current_pass counters)
unfolding current_pass
pass_visits_all_example =
    pass_visits_all thousandths counters ticks (omega arith) (λ e. cc)
      (omega (arith, three_carried))

failed_tick_owes_nothing_example :
    (fold_reply (pending_in counters 5).0 (pending_in counters 5).1 (err (timeout 250))).0
    ≡ record (pending_in counters 5).0 { pass = current_pass counters }
failed_tick_owes_nothing_example =
    failed_tick_owes_nothing counters 5 (err (timeout 250)) (λ ts e. absurd (cc))

abbrev no_headers : Text → List (Option Text)
no_headers name = []

abbrev admission : ℕ → Admission
admission proxies = record {
  key = RateLimitKey.ip;
  policy = MissingKey.route;
  proxies = proxies;
  route_id = codes "search";
  subject = none;
  forwarded_for = none;
  peer = none;
  headers = no_headers;
}

abbrev never_ip : Text → Bool
never_ip t = false

keyed : (proxies : ℕ) → key_of never_ip (admission proxies) ≡ ok (some (codes "search|"))
unfolding lagos.RateLimit.Keys.admission_key lagos.Headers.client_address
    lagos.Headers.trusted_suffix
keyed proxies = refl

routes_share_no_key_example : codes "search" ≡ codes "search"
routes_share_no_key_example =
    routes_share_no_key never_ip (admission 0) (admission 1) (codes "search|")
      (Lacks-of_contains b'|' (codes "search") refl) (Lacks-of_contains b'|' (codes "search") refl)
      (keyed 0) (keyed 1)

redact_url-shown_example :
    redact_url (url_of (codes "redis") (codes "user") (codes "a/b@c:d") (codes "host:6379"))
    ≡ shown (codes "redis") (codes "user") (codes "host:6379")
redact_url-shown_example =
    redact_url-shown (codes "redis") (codes "user") (codes "a/b@c:d") (codes "host:6379")
      (Lacks-of_contains b':' (codes "redis") refl) (Lacks-of_contains b':' (codes "user") refl)
      (Lacks-of_contains b'@' (codes "host:6379") refl)

-- Without a scheme, a password that holds one is shown.
schemeless_password_is_shown :
    redact_url (codes "default:pa://ss@host") ≡ codes "default:pa://ss@host"
unfolding redact_url
schemeless_password_is_shown = refl

alias_normalized : normalize_url (codes " valkeys://host:6379 ") ≡ ok (codes "rediss://host:6379")
unfolding normalize_url
alias_normalized = refl

recached_recognised :
    vendor_from_info (codes "redis_version:6.2.0\r\nrecached_version:0.2.3\r\n") ≡ recached
unfolding vendor_from_info
recached_recognised = refl

abbrev rlcheck : Text → ℕ → ℕ → Result (List ℤ) BackendError
rlcheck key limit window = ok (pos 0 ∷ (pos 0 ∷ (pos 1500 ∷ [])))
