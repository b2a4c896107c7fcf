-- ===== src/Base/Decimal.antt =====
-- Decimal text: `strconv.FormatInt` and `strconv.ParseInt` at base 10 and 64 bits, and
-- `big.Int`'s `String` and `SetString` at base 10.
pub mod RoundTrip
use Prim.Native.Nat.{ℕ, zero, suc, ◌+◌, ◌-◌, ◌*◌, ◌/◌, ◌%◌, ◌^◌}
use mathlib.Core.Bool.{Bool, true, false, ◌||◌, ◌&&◌}
use mathlib.Core.Option.{Option, none, some}
use mathlib.Core.List.{List, [], ◌∷◌}
use wpokt_validator.Base.Tests.{ltb, leb, ◌==◌, if◌then◌else◌}
use wpokt_validator.Base.Integers.{ℤ, pos, negsuc}
use wpokt_validator.Base.Bytes.{Bytes}

unfoldable pub digits : ℕ → ℕ → Bytes → Bytes
digits zero n out = out
digits (suc f) n out =
    let rest = digits f (n / 10) ((b'0' + n % 10) ∷ out) in if n == 0 then out else rest

unfoldable pub format_nat : ℕ → Bytes
unfolding digits
format_nat n = if n == 0 then b'0' ∷ [] else digits n n []

-- `strconv.FormatInt(z, 10)`, `(*big.Int).String`
unfoldable pub format_int : ℤ → Bytes
unfolding format_nat
format_int (pos n) = format_nat n
format_int (negsuc n) = b'-' ∷ format_nat (suc n)

unfoldable pub scan : Bytes → ℕ → Option ℕ
scan [] n = some n
scan (c ∷ s) n = if ltb c b'0' || ltb b'9' c then none else scan s (n * 10 + (c - b'0'))

unfoldable pub scan_all : Bytes → Option ℕ
unfolding scan
scan_all [] = none
scan_all (c ∷ s) = scan (c ∷ s) 0

unfoldable pub signed : Bool → Option ℕ → Option ℤ
signed minus none = none
signed false (some n) = some (pos n)
signed true (some zero) = some (pos zero)
signed true (some (suc n)) = some (negsuc n)

-- `new(big.Int).SetString(s, 10)`
unfoldable pub set_string : Bytes → Option ℤ
unfolding scan_all signed
set_string [] = none
set_string (c ∷ s) =
    if c == b'-'
    then signed true (scan_all s)
    else if c == b'+'
    then signed false (scan_all s)
    else signed false (scan_all (c ∷ s))

unfoldable pub in_int64 : ℤ → Option ℤ
in_int64 (pos n) = if ltb n (2 ^ 63) then some (pos n) else none
in_int64 (negsuc n) = if ltb n (2 ^ 63) then some (negsuc n) else none

unfoldable pub in_range : Option ℤ → Option ℤ
in_range none = none
in_range (some z) = in_int64 z

-- `strconv.ParseInt(s, 10, 64)`; a value out of range is an error.
unfoldable pub parse_int : Bytes → Option ℤ
unfolding set_string in_int64 in_range
parse_int s = in_range (set_string s)
