-- ===== src/Go/Decimal.antt =====
-- The `%d` of fmt.Sprintf at a number.
use Prim.Native.String as Text
use Prim.Native.String.{String, char_at}
use bonipam.Common.{ℕ, zero, suc, ◌+◌, ◌/◌, ◌%◌, ◌≡◌, refl, ltb, if◌then◌else◌}

digit : ℕ → String
digit n = Text.◌∷◌ (char_at "0123456789" n) ""

-- The number of digits is at most the fuel, and `n + 1` of it is enough.
digits : ℕ → ℕ → String
unfolding digit
digits zero n = ""
digits (suc fuel) n =
    let front = digits fuel (n / 10) in
    if ltb n 10 then digit n else Text.◌++◌ front (digit (n % 10))

unfoldable pub decimal : ℕ → String
unfolding digits
decimal n = digits (n + 1) n

decimal_305 : decimal 305 ≡ "305"
unfolding decimal
decimal_305 = refl
