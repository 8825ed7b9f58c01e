-- ===== src/RateLimit/Resp.antt =====
-- The shared store behind a RESP server, crates/lagos-core/src/ratelimit/resp.rs.
-- The server is a parameter: the replies to a pipeline and to a command are arguments. A number is
-- what the client library reads as an `i64` or a `u64`.
use lagos.Prelude.{
  ℕ, ◌+◌, ◌-◌, ◌*◌, ◌/◌, ◌%◌, ◌==◌, ltb, max, if◌then◌else◌, Bool, true, false, not, ◌&&◌, ◌||◌,
  Option, none, some, List, [], ◌∷◌, ◌++◌, length, saturating_add, u64_max, nanos_per_sec,
  duration_mul, ℤ, pos, negsuc, Result, ok, err,
}
use lagos.Text.{Text, codes, is_empty, trim, lines, split_once, text_eq, eq_ignore_ascii_case}
use lagos.Text.Decimal.{decimal}
use lagos.RateLimit.{Decision, allow, refuse}
use lagos.RateLimit.Shared.{Publish, Totals, BackendError, protocol}

pub data Vendor : Type 0 where
  recached : Vendor
  other : Text → Vendor

unfoldable pub vendor_text : Vendor → Text
vendor_text recached = codes "Recached"
vendor_text (other name) = if is_empty name then codes "an unidentified RESP server" else name

-- What a line says of the server: that it is Recached, or a name for it.
pub data Field : Type 0 where
  says_recached : Field
  names : Text → Field
  irrelevant : Field

unfoldable pub field_of : Option (Text × Text) → Field
unfolding text_eq eq_ignore_ascii_case
field_of none = irrelevant
field_of (some (field, value)) =
    if text_eq field (codes "recached_version")
    then says_recached
    else if text_eq field (codes "server_name")
    then (if eq_ignore_ascii_case value (codes "recached") then says_recached else names value)
    else irrelevant

-- The loop over the lines, with the name so far.
unfoldable pub vendor_from_lines : Text → List Text → Vendor
unfolding field_of split_once trim
vendor_from_lines name [] = other name
vendor_from_lines name (line ∷ rest) = elim (field_of (split_once b':' (trim line))) [
  | says_recached ↦ recached
  | names value ↦ vendor_from_lines value rest
  | irrelevant ↦ vendor_from_lines name rest
]

unfoldable pub vendor_from_info : Text → Vendor
unfolding vendor_from_lines lines
vendor_from_info info = vendor_from_lines [] (lines info)

unfoldable pub is_recached : Vendor → Bool
is_recached recached = true
is_recached (other name) = false

-- `RespBackend::probe`, from the payload of `INFO server`.
unfoldable pub probe : Text → Text × Bool
unfolding vendor_text vendor_from_info is_recached
probe info = (vendor_text (vendor_from_info info), is_recached (vendor_from_info info))

unfoldable pub bucket_key : Text → ℕ → Text
unfolding decimal
bucket_key key bucket = key ++ (codes ":shared-v2:" ++ decimal bucket)

unfoldable pub ttl_secs : ℕ → ℕ
ttl_secs interval =
    let lifetime = duration_mul interval 2 in
    max
      (saturating_add u64_max (lifetime / nanos_per_sec)
        (if lifetime % nanos_per_sec == 0 then 0 else 1))
      2

pub data Command : Type 0 where
  hset : Text → Text → ℕ → Command
  expire : Text → ℕ → Command
  hvals : Text → Command

-- The commands for one window of a publish.
unfoldable pub window_commands : Text → Text → ℕ → Bool → ℕ → List Command
unfolding ttl_secs
window_commands key field own writable interval =
    let reads = expire key (ttl_secs interval) ∷ (hvals key ∷ []) in
    if not (own == 0) && writable then hset key field own ∷ reads else reads

module _ (uuid_text : ℕ → Text) where
  unfoldable pub publish_commands : Publish → List Command
  unfolding window_commands bucket_key
  publish_commands p =
      window_commands (bucket_key p.key p.bucket) (uuid_text p.source) p.own_current true p.interval
      ++ window_commands (bucket_key p.key (p.bucket - 1)) (uuid_text p.source) p.own_previous
          (ltb 0 p.bucket) p.interval

  -- The pipeline of `reconcile`.
  unfoldable pub pipeline : List Publish → List Command
  unfolding publish_commands
  pipeline [] = []
  pipeline (p ∷ ps) = publish_commands p ++ pipeline ps

-- `fold(0, saturating_add)`
unfoldable pub sum_from : ℕ → List ℕ → ℕ
sum_from acc [] = acc
sum_from acc (n ∷ ns) = sum_from (saturating_add u64_max acc n) ns

unfoldable pub totals_of : Publish → List ℕ → List ℕ → Totals
unfolding sum_from
totals_of p current previous = record {
  current = sum_from 0 current;
  previous = if p.bucket == 0 then 0 else sum_from 0 previous;
}

-- `zip` of the batch and the chunks of two replies.
unfoldable pub read_chunks : List Publish → List (List ℕ) → List Totals
unfolding totals_of
read_chunks (p ∷ ps) (current ∷ (previous ∷ replies)) =
    totals_of p current previous ∷ read_chunks ps replies
read_chunks [] replies = []
read_chunks (p ∷ ps) [] = []
read_chunks (p ∷ ps) (current ∷ []) = []

abbrev pub replies_per_key : ℕ
replies_per_key = 2

unfoldable pub read_replies :
    List Publish → Result (List (List ℕ)) BackendError → Result (List Totals) BackendError
unfolding read_chunks
read_replies batch (err e) = err e
read_replies batch (ok replies) =
    if length replies == length batch * replies_per_key
    then ok (read_chunks batch replies)
    else err (protocol (codes "expected other replies"))

-- `RespBackend::reconcile`, where `query` is the answer to a pipeline.
unfoldable pub reconcile :
    (ℕ → Text)
    → (List Command → Result (List (List ℕ)) BackendError)
    → List Publish
    → Result (List Totals) BackendError
unfolding read_replies pipeline
reconcile uuid_text query [] = ok []
reconcile uuid_text query (p ∷ ps) = read_replies (p ∷ ps) (query (pipeline uuid_text (p ∷ ps)))

-- `u64::try_from(n).unwrap_or(0)`
unfoldable pub to_u64_or_zero : ℤ → ℕ
to_u64_or_zero (pos n) = n
to_u64_or_zero (negsuc n) = 0

unfoldable pub is_one : ℤ → Bool
is_one (pos n) = n == 1
is_one (negsuc n) = false

unfoldable pub div_ceil_1000 : ℕ → ℕ
div_ceil_1000 n = (n + 999) / 1000

-- `RespBackend::check_exact` on the values that `RLCHECK` returns.
unfoldable pub read_rlcheck : ℕ → List ℤ → Result Decision BackendError
unfolding to_u64_or_zero is_one div_ceil_1000 allow refuse
read_rlcheck limit (allowed ∷ (remaining ∷ (retry_ms ∷ more))) =
    if is_one allowed
    then ok (allow limit (to_u64_or_zero remaining))
    else ok (refuse limit (div_ceil_1000 (to_u64_or_zero retry_ms) * nanos_per_sec))
read_rlcheck limit [] = err (protocol (codes "RLCHECK returned other values"))
read_rlcheck limit (allowed ∷ []) = err (protocol (codes "RLCHECK returned other values"))
read_rlcheck limit (allowed ∷ (remaining ∷ [])) =
    err (protocol (codes "RLCHECK returned other values"))

unfoldable pub read_exact : ℕ → Result (List ℤ) BackendError → Result Decision BackendError
unfolding read_rlcheck
read_exact limit (err e) = err e
read_exact limit (ok reply) = read_rlcheck limit reply

-- `RespBackend::check_exact`, where `query` is the answer to `RLCHECK key limit window`.
unfoldable pub check_exact :
    (Text → ℕ → ℕ → Result (List ℤ) BackendError) → Text → ℕ → ℕ → Result Decision BackendError
unfolding read_exact
check_exact query key limit interval =
    if interval == 0 || not (interval % nanos_per_sec == 0)
    then err (protocol (codes "RLCHECK requires an interval in whole seconds"))
    else read_exact limit (query key limit (interval / nanos_per_sec))
