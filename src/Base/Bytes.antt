-- ===== src/Base/Bytes.antt =====
-- Go strings, as lists of bytes. `strings.ToLower` and `strings.EqualFold` are those of ASCII
-- text: the letters beyond it, which they also fold, are left alone.
use Prim.Native.Char.{code}
use Prim.Native.Nat.{ℕ, ◌+◌}
use Prim.Native.String.{String}
use mathlib.Core.Path.{◌≡◌, refl}
use mathlib.Core.Bool.{Bool, true, false, ◌&&◌}
use mathlib.Core.List.{List, [], ◌∷◌, map}
use native.Mathlib.Omega.{arith}
use wpokt_validator.Base.Tests.{leb, ◌==◌, if◌then◌else◌}

abbrev pub Bytes : Type 0
Bytes = List ℕ

abbrev pub bytes : String → Bytes
bytes String.[] = []
bytes (String.◌∷◌ c s) = code c ∷ bytes s

unfoldable pub eqb : Bytes → Bytes → Bool
eqb [] [] = true
eqb [] (d ∷ t) = false
eqb (c ∷ s) [] = false
eqb (c ∷ s) (d ∷ t) = c == d && eqb s t

pub eqb_refl : (s : Bytes) → eqb s s ≡ true
unfolding eqb
eqb_refl [] = refl
eqb_refl (c ∷ s) = ground (arith, eqb_refl s)

pub eqb→eq : (s t : Bytes) → eqb s t ≡ true → s ≡ t
unfolding eqb
eqb→eq [] [] h = refl
eqb→eq [] (d ∷ t) h = ground arith
eqb→eq (c ∷ s) [] h = ground arith
eqb→eq (c ∷ s) (d ∷ t) h = ground (arith, eqb→eq s t)

unfoldable pub lower_byte : ℕ → ℕ
lower_byte c = if leb b'A' c && leb c b'Z' then c + 32 else c

unfoldable pub to_lower : Bytes → Bytes
unfolding lower_byte
to_lower = map lower_byte

unfoldable pub equal_fold : Bytes → Bytes → Bool
unfolding to_lower eqb
equal_fold s t = eqb (to_lower s) (to_lower t)

-- `strings.HasPrefix(s, "0x")`
unfoldable pub has_0x : Bytes → Bool
has_0x (a ∷ b ∷ s) = a == b'0' && b == b'x'
has_0x (a ∷ []) = false
has_0x [] = false

-- `strings.TrimPrefix(s, "0x")`
unfoldable pub trim_0x : Bytes → Bytes
unfolding has_0x
trim_0x (a ∷ b ∷ s) = if has_0x (a ∷ b ∷ s) then s else a ∷ b ∷ s
trim_0x (a ∷ []) = a ∷ []
trim_0x [] = []
