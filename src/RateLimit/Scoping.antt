-- ===== src/RateLimit/Scoping.antt =====
-- What the keys of limiters keep apart, crates/lagos-core/src/ratelimit/mod.rs.
use lagos.Prelude.{
  true, ℕ, ◌≡◌, ◌≢◌, refl, ap, sym, ◌∙◌, Bool, false, Option, none, some, List, [], ◌∷◌, Result, ok,
  bind-eq-ok, result_inj, some_inj, Bool-cases, inl, inr, arith,
}
use lagos.Text.{Text, before, text_eq, eq_of_text_eq, text_eq_refl}
use lagos.Text.Splitting.{Lacks}
use lagos.Config.{RateLimitKey, MissingKey}
use lagos.RateLimit.{Float, Window, check}
use lagos.RateLimit.Keys.{
  KeyError, scoped, scoped_option, raw_key, key_for, header_value, missing_key, found_or,
  admission_key,
}
use lagos.RateLimit.Limiter.{
  Sketch, Windows, Limiter, find_window, put_window, evict_windows, get_window, check_exact,
}

-- The text before the bar is the route.
before-scoped :
    (route_id raw : Text) → Lacks b'|' route_id → before b'|' (scoped route_id raw) ≡ route_id
unfolding before scoped
before-scoped [] raw h = ground arith
before-scoped (c ∷ cs) raw (n, h) = ground (arith, before-scoped cs raw h)

IsScoped : Text → Text → Type 0
IsScoped route_id key = (raw : Text) × (key ≡ scoped route_id raw)

missing_key-IsScoped :
    (policy : MissingKey) (route_id key : Text) (peer : Option Text)
    → missing_key policy route_id peer ≡ ok (some key)
    → IsScoped route_id key
unfolding missing_key IsScoped
missing_key-IsScoped MissingKey.reject route_id key peer e = absurd (cc)
missing_key-IsScoped MissingKey.route route_id key peer e = ([], sym (some_inj (result_inj e)))
missing_key-IsScoped MissingKey.ip route_id key (some ip) e = (ip, sym (some_inj (result_inj e)))
missing_key-IsScoped MissingKey.ip route_id key none e = absurd (cc)
missing_key-IsScoped MissingKey.skip route_id key peer e = absurd (cc)

found_or-IsScoped :
    (raw : Option Text) (policy : MissingKey) (route_id key : Text) (peer : Option Text)
    → found_or (scoped_option route_id raw) policy route_id peer ≡ ok (some key)
    → IsScoped route_id key
unfolding found_or scoped_option IsScoped
found_or-IsScoped none policy route_id key peer e = missing_key-IsScoped policy route_id key peer e
found_or-IsScoped (some raw) policy route_id key peer e = (raw, sym (some_inj (result_inj e)))

admission_key-IsScoped :
    (is_ip : Text → Bool) (key : RateLimitKey) (policy : MissingKey) (proxies : ℕ) (route_id : Text)
    (subject forwarded_for peer : Option Text) (headers : Text → List (Option Text)) (k : Text)
    → admission_key is_ip key policy proxies route_id subject forwarded_for peer headers
      ≡ ok (some k)
    → IsScoped route_id k
unfolding admission_key key_for
admission_key-IsScoped is_ip key policy proxies route_id subject forwarded_for peer headers k e =
    let (value, a, b) = bind-eq-ok (header_value key headers) _ e in
    found_or-IsScoped (raw_key is_ip key proxies subject forwarded_for peer (λ name. value)) policy
      route_id k peer b

-- A request, and the settings of the limiter that it meets on a route.
pub record Admission : Type 0 where
  pub key : RateLimitKey
  pub policy : MissingKey
  pub proxies : ℕ
  pub route_id : Text
  pub subject : Option Text
  pub forwarded_for : Option Text
  pub peer : Option Text
  pub headers : Text → List (Option Text)

abbrev pub key_of : (Text → Bool) → Admission → Result (Option Text) KeyError
key_of is_ip a =
    admission_key is_ip a.key a.policy a.proxies a.route_id a.subject a.forwarded_for a.peer
      a.headers

-- Two requests that are counted under one key are requests for one route, whatever their keys,
-- headers and settings are, if the names of routes hold no bar.
pub routes_share_no_key :
    (is_ip : Text → Bool) (a b : Admission) (k : Text)
    → Lacks b'|' a.route_id
    → Lacks b'|' b.route_id
    → key_of is_ip a ≡ ok (some k)
    → key_of is_ip b ≡ ok (some k)
    → a.route_id ≡ b.route_id
routes_share_no_key is_ip a b k la lb ea eb =
    let (x, ex) = scope is_ip a k ea in
    let (y, ey) = scope is_ip b k eb in
    sym (before-scoped a.route_id x la)
    ∙ ap (before b'|') (sym ex ∙ ey)
    ∙ before-scoped b.route_id y lb
  where
    scope :
        (is_ip : Text → Bool) (a : Admission) (k : Text)
        → key_of is_ip a ≡ ok (some k)
        → (raw : Text) × (k ≡ scoped a.route_id raw)
    scope is_ip a k e =
        unfold IsScoped in
        admission_key-IsScoped is_ip a.key a.policy a.proxies a.route_id a.subject a.forwarded_for
          a.peer a.headers k e

missing_key-none :
    (policy : MissingKey) (route_id : Text) (peer : Option Text)
    → missing_key policy route_id peer ≡ ok none
    → policy ≡ MissingKey.skip
unfolding missing_key
missing_key-none MissingKey.reject route_id peer e = absurd (cc)
missing_key-none MissingKey.route route_id peer e = absurd (cc)
missing_key-none MissingKey.ip route_id (some ip) e = absurd (cc)
missing_key-none MissingKey.ip route_id none e = absurd (cc)
missing_key-none MissingKey.skip route_id peer e = refl

found_or-none :
    (found : Option Text) (policy : MissingKey) (route_id : Text) (peer : Option Text)
    → found_or found policy route_id peer ≡ ok none
    → (found ≡ none) × (policy ≡ MissingKey.skip)
unfolding found_or
found_or-none none policy route_id peer e = (refl, missing_key-none policy route_id peer e)
found_or-none (some k) policy route_id peer e = absurd (cc)

-- A request goes uncounted only where the policy for a missing key says so, and only if the request
-- has no key: one whose header is there but ambiguous is refused whatever the policy.
pub uncounted_only_by_skip :
    (is_ip : Text → Bool) (a : Admission)
    → key_of is_ip a ≡ ok none
    → (a.policy ≡ MissingKey.skip)
      × ((value : Option Text) × (header_value a.key a.headers ≡ ok value)
          × (key_for is_ip a.key a.proxies a.route_id a.subject a.forwarded_for a.peer
                (λ name. value)
              ≡ none))
unfolding admission_key
uncounted_only_by_skip is_ip a e =
    let (value, h, f) = bind-eq-ok (header_value a.key a.headers) _ e in
    let (n, s) =
      found_or-none
        (key_for is_ip a.key a.proxies a.route_id a.subject a.forwarded_for a.peer (λ name. value))
        a.policy a.route_id a.peer f in
    (s, (value, h, n))

pub find-put_other :
    (held : List (Text × Window)) (key other : Text) (w : Window)
    → text_eq key other ≡ false
    → find_window (put_window held key w) other ≡ find_window held other
unfolding find_window put_window
find-put_other [] key other w n = rw n refl
find-put_other ((k, old) ∷ rest) key other w n = elim (Bool-cases (text_eq k key)) [
  | inl e ↦
      let same : k ≡ key = eq_of_text_eq k key e in
      let differ : text_eq k other ≡ false = rw same n in
      rw (e, put_window, differ, find_window) refl
  | inr e ↦ rw (e, put_window, find_window, find-put_other rest key other w n) refl
]

pub find-put_same :
    (held : List (Text × Window)) (key : Text) (w : Window)
    → find_window (put_window held key w) key ≡ some w
unfolding find_window put_window
find-put_same [] key w = rw (text_eq_refl key) refl
find-put_same ((k, old) ∷ rest) key w = elim (Bool-cases (text_eq k key)) [
  | inl e ↦ rw (e, put_window, find_window, e) refl
  | inr e ↦ rw (e, put_window, find_window, e) (find-put_same rest key w)
]

pub find-evict_windows :
    (kept : Text → Bool) (held : List (Text × Window)) (key : Text)
    → kept key ≡ true
    → find_window (evict_windows kept held) key ≡ find_window held key
unfolding find_window evict_windows
find-evict_windows kept [] key k = refl
find-evict_windows kept ((other, w) ∷ rest) key k = elim (Bool-cases (text_eq other key)) [
  | inl e ↦ let stays : kept other ≡ true = rw (eq_of_text_eq other key e) k in rw (stays, e) refl
  | inr e ↦ ground (arith, find-evict_windows kept rest key k)
]

-- A request of one caller does not change what another caller is answered, at whatever moments both
-- come, where the counting is exact.
pub callers_do_not_interfere :
    (fl : Float) (sk : Sketch fl.F) (l : Limiter sk.S) (windows : Windows) (key other : Text)
    (now later : ℕ)
    → key ≢ other
    → (check_exact fl sk l (check_exact fl sk l windows key now).0 other later).1
      ≡ (check_exact fl sk l windows other later).1
unfolding check_exact
callers_do_not_interfere fl sk l windows key other now later n =
    let differ : text_eq key other ≡ false = elim (Bool-cases (text_eq key other)) [
      | inl e ↦ absurd (n (eq_of_text_eq key other e))
      | inr e ↦ e
    ] in
    ap (λ (o : Option Window). (check fl (get_window o later) later l.limit l.interval).1)
      (find-put_other windows.held key other
        (check fl (get_window (find_window windows.held key) now) now l.limit l.interval).0 differ)
