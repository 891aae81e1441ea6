-- ===== src/Encoding/Decimal.antt =====
-- Decimal numbers: what fmt's %d writes, and the digits that a loop reads back.
use model_lib.Base.{ℕ, zero, suc, ◌+◌, ◌/◌, ◌%◌, ltb, if◌then◌else◌, [], ◌∷◌, ◌++◌, Bytes}
use model_lib.Base.Int.{ℤ, pos, negsuc}

-- Twenty digits are enough for 64 bits.
unfoldable pub digits : ℕ → ℕ → Bytes
digits zero n = []
digits (suc fuel) n =
    let front = digits fuel (n / 10) in
    if ltb n 10 then (48 + n) ∷ [] else front ++ (48 + n % 10) ∷ []

-- %d
unfoldable pub decimal : ℤ → Bytes
decimal (pos n) = digits 20 n
decimal (negsuc n) = b'-' ∷ digits 20 (n + 1)
