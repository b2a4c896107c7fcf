-- ===== src/Base/Decimal/RoundTrip.antt =====
-- Decimal texts, printed and read back.
use Prim.Native.Nat.{ℕ, zero, suc, ◌+◌, ◌-◌, ◌*◌, ◌/◌, ◌%◌, ◌≤◌}
use mathlib.Core.Path.{◌≡◌, refl, ◌∙◌, ap}
use mathlib.Core.Logic.{◌≢◌, inl, inr}
use mathlib.Core.Bool.{false}
use mathlib.Core.Option.{Option, none, some}
use mathlib.Core.List.{[], ◌∷◌}
use native.Mathlib.Omega.{arith}
use wpokt_validator.Base.Tests.{◌==◌, Bool-cases, ==→eq}
use wpokt_validator.Base.Integers.{ℤ, pos, negsuc, IsInt64}
use wpokt_validator.Base.Bytes.{Bytes}
use wpokt_validator.Base.Decimal.{
  digits, format_nat, format_int, scan, scan_all, signed, set_string, in_int64, in_range, parse_int,
}

scan_digit : (n : ℕ) (out : Bytes) → scan ((b'0' + n % 10) ∷ out) (n / 10) ≡ scan out n
unfolding scan
scan_digit n out =
    let e : n / 10 * 10 + (b'0' + n % 10 - b'0') ≡ n = omega arith in
    let step : scan ((b'0' + n % 10) ∷ out) (n / 10)
        ≡ scan out (n / 10 * 10 + (b'0' + n % 10 - b'0')) =
      ground arith in
    step ∙ ap (scan out) e

scan-digits : (f n : ℕ) (out : Bytes) → n ≤ f → scan (digits f n out) 0 ≡ scan out n
unfolding digits
scan-digits zero n out h = let e : n ≡ 0 = omega arith in rw e
scan-digits (suc f) n out h = elim (Bool-cases (n == 0)) [
  | inl e ↦ rw e (rw (==→eq n 0 e))
  | inr e ↦ rw e (scan-digits f (n / 10) ((b'0' + n % 10) ∷ out) (ground arith) ∙ scan_digit n out)
]

abbrev IsDigits : Bytes → Type 0
IsDigits [] = ⊥
IsDigits (c ∷ s) = (c ≢ b'-') × (c ≢ b'+')

digits-IsDigits : (f n : ℕ) (out : Bytes) → IsDigits out → IsDigits (digits f n out)
unfolding digits
digits-IsDigits zero n out h = h
digits-IsDigits (suc f) n out h = elim (Bool-cases (n == 0)) [
  | inl e ↦ rw e h
  | inr e ↦ rw e (digits-IsDigits f (n / 10) ((b'0' + n % 10) ∷ out) (omega arith, omega arith))
]

signed_digits : (n : ℕ) (s : Bytes) → IsDigits s → scan_all s ≡ some n → set_string s ≡ some (pos n)
unfolding set_string
signed_digits n [] h e = absurd h
signed_digits n (c ∷ s) h e = ground (arith, h.0, h.1)

scan_all-eq-scan : (s : Bytes) → IsDigits s → scan_all s ≡ scan s 0
unfolding scan_all
scan_all-eq-scan [] h = absurd h
scan_all-eq-scan (c ∷ s) h = refl

format_nat-eq-digits : (n : ℕ) → format_nat (suc n) ≡ digits (suc n) (suc n) []
unfolding format_nat digits
format_nat-eq-digits n = ground arith

digits-suc-IsDigits : (n : ℕ) → IsDigits (digits (suc n) (suc n) [])
unfolding digits
digits-suc-IsDigits n =
    let rest : IsDigits (digits n (suc n / 10) ((b'0' + suc n % 10) ∷ [])) =
      digits-IsDigits n (suc n / 10) ((b'0' + suc n % 10) ∷ []) (omega arith, omega arith) in
    let e : (suc n == 0) ≡ false = ground arith in rw e rest

format_nat-IsDigits : (n : ℕ) → IsDigits (format_nat n)
unfolding format_nat
format_nat-IsDigits zero = (omega arith, omega arith)
format_nat-IsDigits (suc n) = rw (format_nat-eq-digits n) (digits-suc-IsDigits n)

format_nat-scan : (n : ℕ) → scan_all (format_nat n) ≡ some n
unfolding format_nat scan_all scan
format_nat-scan zero = refl
format_nat-scan (suc n) =
    rw (format_nat-eq-digits n)
      (scan_all-eq-scan _ (digits-suc-IsDigits n) ∙ scan-digits (suc n) (suc n) [] (omega arith))

-- `SetString` reads what `String` prints.
pub set_string-format_int : (z : ℤ) → set_string (format_int z) ≡ some z
unfolding set_string format_int signed
set_string-format_int (pos n) =
    signed_digits n (format_nat n) (format_nat-IsDigits n) (format_nat-scan n)
set_string-format_int (negsuc n) = rw (format_nat-scan (suc n))

-- `ParseInt` reads what `FormatInt` prints of an int64.
pub parse_int-format_int : (z : ℤ) → IsInt64 z → parse_int (format_int z) ≡ some z
unfolding parse_int
parse_int-format_int (pos n) h = rw set_string-format_int (ground arith)
parse_int-format_int (negsuc n) h = rw set_string-format_int (ground arith)

in_int64-IsInt64 : (y z : ℤ) → in_int64 y ≡ some z → IsInt64 z
unfolding in_int64
in_int64-IsInt64 (pos n) z h = ground arith
in_int64-IsInt64 (negsuc n) z h = ground arith

in_range-IsInt64 : (o : Option ℤ) (z : ℤ) → in_range o ≡ some z → IsInt64 z
unfolding in_range
in_range-IsInt64 none z h = cc
in_range-IsInt64 (some y) z h = in_int64-IsInt64 y z h

pub parse_int-IsInt64 : (s : Bytes) (z : ℤ) → parse_int s ≡ some z → IsInt64 z
unfolding parse_int
parse_int-IsInt64 s z h = in_range-IsInt64 (set_string s) z h
