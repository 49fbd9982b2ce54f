-- ===== src/Base/Text.antt =====
-- What `printf` of the C library writes for a number, as bytes.
use Prim.Native.Nat.{ℕ, zero, suc, ◌+◌, ◌-◌, ◌/◌, ◌%◌, ◌^◌, ◌≤◌}
use mathlib.Core.List.{[], ◌∷◌, ◌++◌}
use native.Mathlib.Omega.{arith}
use rushkit.Base.Tests.{ltb, if◌then◌else◌}
use rushkit.Base.Lists.{Bytes, length, length-append}

-- Decimal digits, at most as many as the fuel.
abbrev digits : ℕ → ℕ → Bytes
digits zero n = []
digits (suc fuel) n =
    let front = digits fuel (n / 10) in
    if ltb n 10 then (48 + n) ∷ [] else front ++ ((48 + n % 10) ∷ [])

-- `%d` of an int that is given as its 32-bit pattern; it has at most ten digits.
unfoldable pub decimal : ℕ → Bytes
decimal w = if ltb w (2 ^ 31) then digits 10 w else 45 ∷ digits 10 (2 ^ 32 - w)

digits_bounded : (fuel n : ℕ) → length (digits fuel n) ≤ fuel
digits_bounded zero n = omega arith
digits_bounded (suc fuel) n = ground (
  arith,
  digits_bounded fuel (n / 10),
  length-append {0} (digits fuel (n / 10)) ((48 + n % 10) ∷ []),
)

pub decimal_bounded : (w : ℕ) → length (decimal w) ≤ 11
unfolding decimal
decimal_bounded w = ground (arith, digits_bounded 10 w, digits_bounded 10 (2 ^ 32 - w))

-- A digit of `%x`.
abbrev pub hex_digit : ℕ → ℕ
hex_digit d = if ltb d 10 then 48 + d else 87 + d
