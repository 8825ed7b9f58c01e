-- ===== src/Prelude/Results.antt =====
-- Rust's `Result`, and the operator `?` as the binding of a do block.
use mathlib.Core.Path.{◌≡◌, refl}

pub data Result (T E : Type 0) : Type 0 where
  ok : T → Result T E
  err : E → Result T E

infixl 5 ◌>>=◌
abbrev pub ◌>>=◌ : {T U E : Type 0} → Result T E → (T → Result U E) → Result U E
r >>= next = elim r [ ok t ↦ next t | err e ↦ err e ]

pub result_inj : {T E : Type 0} {s t : T} → ◌≡◌ {A = Result T E} (ok s) (ok t) → s ≡ t
result_inj h = cc

-- The value that a chain passes on, if it comes out ok.
pub bind-eq-ok :
    {T U E : Type 0} (r : Result T E) (next : T → Result U E) {u : U}
    → r >>= next ≡ ok u
    → (t : T) × (r ≡ ok t) × (next t ≡ ok u)
bind-eq-ok (err e) next h = absurd (cc)
bind-eq-ok (ok t) next h = (t, refl, h)
