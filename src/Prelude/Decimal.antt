-- ===== src/Prelude/Decimal.antt =====
-- `%d` for a number that is not negative, and the bound of `snprintf`.
use Prim.Native.Nat.{ℕ, zero, suc, ◌+◌, ◌-◌, ◌/◌, ◌%◌}
use mathlib.Core.List.{[], ◌∷◌, ◌++◌}
use network_file_system.Prelude.Tests.{ltb, if◌then◌else◌}
use network_file_system.Prelude.Lists.{take}
use network_file_system.Prelude.Text.{Bytes}

unfoldable pub decimal_from : (fuel : ℕ) → ℕ → Bytes
decimal_from zero n = []
decimal_from (suc f) n =
    let front = decimal_from f (n / 10) in (if ltb n 10 then [] else front) ++ (b'0' + n % 10) ∷ []

-- Numbers of up to ten digits, which an int has at most.
unfoldable pub decimal : ℕ → Bytes
unfolding decimal_from
decimal = decimal_from 10

-- `snprintf(buffer, size, ...)`: what fits, without the final NUL.
abbrev pub snprintf : ℕ → Bytes → Bytes
snprintf size text = take (size - 1) text
