-- ===== src/Accept/Flood.antt =====
-- Connections that one address opens, crates/lagos-core/src/accept.rs.
use lagos.Prelude.{
  ℕ, ◌+◌, ◌-◌, ◌≤◌, ◌<◌, ◌≡◌, refl, sym, ◌∙◌, if◌then◌else◌, Bool, true, some, List, [], ◌∷◌,
  Bool-cases, inl, inr, u64_max, duration_max, arith, subst,
}
use lagos.Text.{Text, text_eq, eq_of_text_eq}
use lagos.Config.{LimitMode}
use lagos.RateLimit.{Float, Decision, Window, check}
use lagos.RateLimit.Quota.{IsIeee, Counts, count_one-Counts, check_within}
use lagos.RateLimit.Limiter.{
  Sketch, Windows, Limiter, exact, find_window, get_window, put_window, check_exact, check_limiter,
  evict, evict_windows,
}
use lagos.RateLimit.Scoping.{find-evict_windows, find-put_other, find-put_same}
use lagos.Accept.{admits}

-- What happens to the limiter: a connection from an address at a moment, or an eviction of the store,
-- which may drop the windows of any addresses.
pub data Event : Type 0 where
  connection : Text → ℕ → Event
  eviction : (Text → Bool) → Event

module _ (fl : Float) (sk : Sketch fl.F) where
  -- The limiter with these windows.
  abbrev pub over : ℕ → ℕ → LimitMode → Windows → Limiter sk.S
  over limit interval mode windows = record {
    counters = exact windows;
    limit = limit;
    interval = interval;
    mode = mode;
  }

  -- How many of the connections are from `ip` and admitted, where `same` says if one is from it.
  abbrev pub taken : Bool → Bool → ℕ
  taken same allowed = if same then (if allowed then 1 else 0) else 0

  unfoldable pub accepted : Limiter sk.S → Text → List Event → ℕ
  unfolding admits evict
  accepted l ip [] = 0
  accepted l ip (eviction kept ∷ later) = accepted (evict kept l) ip later
  accepted l ip (connection from now ∷ later) =
      let r = admits fl sk l from now in taken (text_eq from ip) r.1 + accepted r.0 ip later

-- The connections from `ip` come within one interval of the moment `start`, and the window of `ip` is
-- not evicted.
abbrev pub InWindow : Text → ℕ → ℕ → List Event → Type 0
InWindow ip start interval [] = Unit
InWindow ip start interval (eviction kept ∷ later) =
    (kept ip ≡ true) × InWindow ip start interval later
InWindow ip start interval (connection from now ∷ later) =
    (text_eq from ip ≡ true → now - start < interval) × InWindow ip start interval later

module _ (fl : Float) (sk : Sketch fl.F) (limit interval : ℕ) (mode : LimitMode) where
  -- The check of a connection, and the windows that it leaves.
  abbrev checked : Windows → Text → ℕ → Window × Decision
  checked windows from now =
      check fl (get_window (find_window windows.held from) now) now limit interval

  abbrev left : Windows → Text → ℕ → Windows
  left windows from now = record windows {
    held = put_window windows.held from (checked windows from now).0;
  }

  accepted-cons :
      (windows : Windows) (ip from : Text) (now : ℕ) (later : List Event)
      → accepted fl sk (over fl sk limit interval mode windows) ip (connection from now ∷ later)
        ≡ taken fl sk (text_eq from ip) (checked windows from now).1.allowed
          + accepted fl sk (over fl sk limit interval mode (left windows from now)) ip later
  unfolding accepted admits check_limiter check_exact
  accepted-cons windows ip from now later = refl

  accepted-evicted :
      (windows : Windows) (ip : Text) (kept : Text → Bool) (later : List Event)
      → accepted fl sk (over fl sk limit interval mode windows) ip (eviction kept ∷ later)
        ≡ accepted fl sk
            (over fl sk limit interval mode
              (record windows { held = evict_windows kept windows.held }))
            ip
            later
  unfolding accepted evict
  accepted-evicted windows ip kept later = refl

module _ (fl : Float) (ieee : IsIeee fl) (sk : Sketch fl.F) (limit interval : ℕ) (mode : LimitMode)
    (word : limit ≤ u64_max) (duration : interval ≤ duration_max) where
  own-Counts :
      (windows : Windows) (ip : Text) (now : ℕ) (w : Window)
      → find_window windows.held ip ≡ some w
      → w.current ≤ limit
      → now - w.start < interval
      → Counts limit w (checked fl sk limit interval mode windows ip now)
  unfolding get_window
  own-Counts windows ip now w f h t = rw f (
      rw (check_within fl ieee limit interval word w now duration t)
        (count_one-Counts fl ieee limit interval word w (now - w.start) h))

  -- An address opens no more connections within one interval than the limit allows, those that its
  -- window had counted before included, as long as the store keeps that window: whatever other
  -- addresses do in between, and whichever of their windows are evicted.
  pub flood_is_bounded :
      (windows : Windows) (ip : Text) (w : Window) (events : List Event)
      → find_window windows.held ip ≡ some w
      → w.current ≤ limit
      → InWindow ip w.start interval events
      → w.current + accepted fl sk (over fl sk limit interval mode windows) ip events ≤ limit
  flood_is_bounded windows ip w [] f h t = unfold accepted in omega (arith, h)
  flood_is_bounded windows ip w (eviction kept ∷ later) f h (k, ts) =
      rw (accepted-evicted fl sk limit interval mode windows ip kept later) (
        flood_is_bounded (record windows { held = evict_windows kept windows.held }) ip w later
          (find-evict_windows kept windows.held ip k ∙ f) h ts)
  flood_is_bounded windows ip w (connection from now ∷ later) f h (t, ts) =
      rw (accepted-cons fl sk limit interval mode windows ip from now later)
        (elim (Bool-cases (text_eq from ip)) [
          | inr e ↦ rw e (
              omega (
                arith,
                flood_is_bounded (left fl sk limit interval mode windows from now) ip w later
                    (find-put_other windows.held from ip _ e ∙ f) h ts,
              ))
          | inl e ↦
              let same : from ≡ ip = eq_of_text_eq from ip e in
              let r = checked fl sk limit interval mode windows from now in
              let c =
                own-Counts windows from now w
                  (subst (λ (k : Text). find_window windows.held k ≡ some w) (sym same) f) h
                  (t e) in
              let rest =
                flood_is_bounded (left fl sk limit interval mode windows from now) ip r.0 later
                  (subst (λ (k : Text). find_window (put_window windows.held from r.0) k ≡ some r.0)
                    same (find-put_same windows.held from r.0))
                  c.within (subst (λ (s : ℕ). InWindow ip s interval later) (sym c.start) ts) in
              rw e (omega (arith, rest, c.current))
        ])
