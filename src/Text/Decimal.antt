-- ===== src/Text/Decimal.antt =====
-- `n.to_string()` and reading it back.
use lagos.Prelude.{
  ℕ, zero, suc, ◌+◌, ◌*◌, ◌/◌, ◌%◌, ◌-◌, ◌≤◌, ◌≡◌, ltb, [], ◌∷◌, arith, true, false,
}
use lagos.Text.{Text}

-- The digits of `n`, with `rest` behind them.
unfoldable pub digits : ℕ → ℕ → Text → Text
digits zero n rest = (n % 10 + b'0') ∷ rest
digits (suc fuel) n rest = elim (ltb n 10) [
  | true ↦ (n + b'0') ∷ rest
  | false ↦ digits fuel (n / 10) ((n % 10 + b'0') ∷ rest)
]

unfoldable pub decimal : ℕ → Text
unfolding digits
decimal n = digits n n []

-- The number that digits stand for, `acc` being what was read before.
unfoldable pub value_of : ℕ → Text → ℕ
value_of acc [] = acc
value_of acc (c ∷ cs) = value_of (acc * 10 + (c - b'0')) cs

value_of-digits :
    (fuel n : ℕ) (rest : Text) → n ≤ fuel → value_of 0 (digits fuel n rest) ≡ value_of n rest
unfolding digits value_of
value_of-digits zero n rest h = let e : n ≡ 0 = omega arith in rw e (ground arith)
value_of-digits (suc fuel) n rest h =
    ground (arith, value_of-digits fuel (n / 10) ((n % 10 + b'0') ∷ rest))
