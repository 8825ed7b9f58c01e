-- ===== src/RateLimit/Limiter.antt =====
-- The limiter over its counting backends, crates/lagos-core/src/ratelimit/mod.rs.
-- The store of moka is what it holds for a key, if it holds one. When it evicts which entries, by its
-- capacity or by their age, is its own: `evict` is such a step, which may come between any two checks. The sketch of pingora-limits is a parameter: the two samples and the progress that
-- `rate_with` shows for a key, and `observe`.
use lagos.Prelude.{
  ℕ, if◌then◌else◌, Bool, true, false, Option, none, some, List, [], ◌∷◌, duration_mul,
}
use lagos.Text.{Text, text_eq}
use lagos.Config.{RateLimitConfig, Counter, LimitMode}
use lagos.RateLimit.{Float, Decision, refuse, Window, new, check, one_f, remaining_of}
use lagos.RateLimit.Shared.{SharedCounters, check_at}

pub record Sketch (F : Type 0) : Type 1 where
  pub S : Type 0
  pub new_sketch : ℕ → S
  pub prev_samples : S → Text → ℕ
  pub curr_samples : S → Text → ℕ
  pub fraction : S → Text → F
  pub observe : S → Text → ℕ → S

pub record Windows : Type 0 where
  pub max_capacity : ℕ
  pub time_to_idle : ℕ
  pub held : List (Text × Window)

unfoldable pub find_window : List (Text × Window) → Text → Option Window
find_window [] key = none
find_window ((k, w) ∷ rest) key =
    let found = find_window rest key in if text_eq k key then some w else found

-- `get_with_by_ref`, with a new window at `now` for a key that is not held.
unfoldable pub get_window : Option Window → ℕ → Window
get_window none now = new now
get_window (some w) now = w

-- The window behind the lock takes its new value.
unfoldable pub put_window : List (Text × Window) → Text → Window → List (Text × Window)
put_window [] key w = (key, w) ∷ []
put_window ((k, old) ∷ rest) key w =
    let more = put_window rest key w in if text_eq k key then (k, w) ∷ rest else (k, old) ∷ more

pub data Counters (S : Type 0) : Type 0 where
  exact : Windows → Counters S
  sketch : S → Counters S
  shared : SharedCounters → Counters S

pub record Limiter (S : Type 0) : Type 0 where
  pub counters : Counters S
  pub limit : ℕ
  pub interval : ℕ
  pub mode : LimitMode

-- An eviction of moka, where `kept` says which keys it keeps.
unfoldable pub evict_windows : (Text → Bool) → List (Text × Window) → List (Text × Window)
evict_windows kept [] = []
evict_windows kept ((key, w) ∷ rest) =
    let more = evict_windows kept rest in if kept key then (key, w) ∷ more else more

unfoldable pub evict_counters : {S : Type 0} → (Text → Bool) → Counters S → Counters S
unfolding evict_windows
evict_counters kept (exact windows) =
    exact (record windows { held = evict_windows kept windows.held })
evict_counters kept (sketch s) = sketch s
evict_counters kept (shared c) = shared c

unfoldable pub evict : {S : Type 0} → (Text → Bool) → Limiter S → Limiter S
unfolding evict_counters
evict kept l = record l { counters = evict_counters kept l.counters }

module _ (fl : Float) (sk : Sketch fl.F) where
  unfoldable pub local_counters : Counter → ℕ → ℕ → Counters sk.S
  local_counters Counter.exact max_keys interval =
      exact (record { max_capacity = max_keys; time_to_idle = duration_mul interval 2; held = [] })
  local_counters Counter.sketch max_keys interval = sketch (sk.new_sketch interval)
  local_counters Counter.shared max_keys interval = sketch (sk.new_sketch interval)

  -- `Limiter::new`
  unfoldable pub new_limiter : RateLimitConfig → Limiter sk.S
  unfolding local_counters
  new_limiter cfg = record {
    counters = local_counters cfg.counter cfg.max_keys cfg.interval;
    limit = cfg.requests;
    interval = cfg.interval;
    mode = LimitMode.approximate;
  }

  -- `Limiter::shared`, over the counters that the factory builds.
  unfoldable pub shared_limiter : RateLimitConfig → SharedCounters → Limiter sk.S
  shared_limiter cfg built = record {
    counters = shared built;
    limit = cfg.requests;
    interval = cfg.interval;
    mode = cfg.mode;
  }

  unfoldable pub reconciled : Counters sk.S → LimitMode → Option SharedCounters
  reconciled (shared c) LimitMode.approximate = some c
  reconciled (shared c) LimitMode.exact = none
  reconciled (exact w) mode = none
  reconciled (sketch s) mode = none

  unfoldable pub reconciled_counters : Limiter sk.S → Option SharedCounters
  unfolding reconciled
  reconciled_counters l = reconciled l.counters l.mode

  unfoldable pub weighted : sk.S → Text → fl.F
  weighted s key =
      fl.add (fl.mul (fl.of_u64 (sk.prev_samples s key)) (fl.sub (one_f fl) (sk.fraction s key)))
        (fl.of_u64 (sk.curr_samples s key))

  unfoldable pub check_sketch : Limiter sk.S → sk.S → Text → sk.S × Decision
  unfolding weighted refuse remaining_of
  check_sketch l s key =
      if fl.ge (weighted s key) (fl.of_u64 l.limit) then (s, refuse l.limit l.interval) else (
        sk.observe s key 1,
        record {
          allowed = true;
          limit = l.limit;
          remaining = remaining_of fl l.limit (weighted s key);
          retry_after = 0;
        },
      )

  unfoldable pub check_exact : Limiter sk.S → Windows → Text → ℕ → Windows × Decision
  unfolding get_window find_window put_window check
  check_exact l windows key now =
      let r = check fl (get_window (find_window windows.held key) now) now l.limit l.interval in
      (record windows { held = put_window windows.held key r.0 }, r.1)

  abbrev with_counters : Limiter sk.S → Counters sk.S × Decision → Limiter sk.S × Decision
  with_counters l (c, d) = (record l { counters = c }, d)

  -- `Limiter::check_at`; `wall` is the wall clock and `fresh` a new `Uuid`, for shared counters.
  unfoldable pub check_counters :
      Limiter sk.S → Counters sk.S → Text → ℕ → Option ℕ → ℕ → Counters sk.S × Decision
  unfolding check_exact check_sketch check_at
  check_counters l (exact windows) key now wall fresh =
      let r = check_exact l windows key now in (exact r.0, r.1)
  check_counters l (sketch s) key now wall fresh = let r = check_sketch l s key in (sketch r.0, r.1)
  check_counters l (shared c) key now wall fresh =
      let r = check_at fl c key wall fresh in (shared r.0, r.1)

  unfoldable pub check_limiter : Limiter sk.S → Text → ℕ → Option ℕ → ℕ → Limiter sk.S × Decision
  unfolding check_counters
  check_limiter l key now wall fresh =
      with_counters l (check_counters l l.counters key now wall fresh)

  -- What the backend answers, where the mode asks it: `SharedCounters::check_exact`.
  unfoldable pub asks : LimitMode → Counters sk.S → Bool
  asks LimitMode.exact (shared c) = true
  asks LimitMode.exact (exact w) = false
  asks LimitMode.exact (sketch s) = false
  asks LimitMode.approximate c = false

  unfoldable pub or_check :
      Option Decision → Limiter sk.S → Text → ℕ → Option ℕ → ℕ → Limiter sk.S × Decision
  unfolding check_limiter
  or_check (some decision) l key now wall fresh = (l, decision)
  or_check none l key now wall fresh = check_limiter l key now wall fresh

  -- `Limiter::decide`, where `answer` is the backend's, if it could answer.
  unfoldable pub decide_limiter :
      Option Decision → Limiter sk.S → Text → ℕ → Option ℕ → ℕ → Limiter sk.S × Decision
  unfolding asks or_check
  decide_limiter answer l key now wall fresh =
      or_check (if asks l.mode l.counters then answer else none) l key now wall fresh
