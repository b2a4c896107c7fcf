-- ===== src/Common/HexLaws.antt =====
-- The length of an address in hexadecimal, common/hex.go and common/ethereum.go.
use wpokt_validator.Base.{
  ℕ, suc, ◌+◌, ◌*◌, ◌≡◌, refl, ap, true, Option, none, some, [], ◌∷◌, arith, length, ◌==◌, ==→eq,
  Bool-cases, Option-cases, inl, inr, All, ◌≤◌, ◌⊎◌,
}
use wpokt_validator.Base.Bytes.{Bytes, lower_byte, to_lower, has_0x, trim_0x}
use wpokt_validator.Common.{
  decode_string, hex_pair, hex_value, bytes_from_hex, is_valid_ethereum_address,
}

hex_pair-eq-some :
    (a b : Option ℕ) (rest : Option Bytes) (out : Bytes)
    → hex_pair a b rest ≡ some out
    → (r : Bytes) × (rest ≡ some r) × (length out ≡ length r + 1)
unfolding hex_pair
hex_pair-eq-some none b rest out h = ground arith
hex_pair-eq-some (some a) none rest out h = ground arith
hex_pair-eq-some (some a) (some b) none out h = ground arith
hex_pair-eq-some (some a) (some b) (some r) out h = (r, refl, ground arith)

length-decode_string : (s out : Bytes) → decode_string s ≡ some out → length s ≡ 2 * length out
unfolding decode_string
length-decode_string [] out h = ground arith
length-decode_string (a ∷ []) out h = ground arith
length-decode_string (a ∷ b ∷ s) out h =
    let (r, e, l) = hex_pair-eq-some (hex_value a) (hex_value b) (decode_string s) out h in
    omega (arith, length-decode_string s r e)

length-to_lower : (s : Bytes) → length (to_lower s) ≡ length s
unfolding to_lower
length-to_lower [] = refl
length-to_lower (c ∷ s) = ap suc (length-to_lower s)

lower_byte_idem : (c : ℕ) → lower_byte (lower_byte c) ≡ lower_byte c
unfolding lower_byte
lower_byte_idem c = ground arith

to_lower_idem : (s : Bytes) → to_lower (to_lower s) ≡ to_lower s
unfolding to_lower
to_lower_idem [] = refl
to_lower_idem (c ∷ s) = cc (lower_byte_idem c, to_lower_idem s)

length-trim_0x : (s : Bytes) → has_0x s ≡ true → length s ≡ length (trim_0x s) + 2
unfolding trim_0x has_0x
length-trim_0x [] h = ground arith
length-trim_0x (a ∷ []) h = ground arith
length-trim_0x (a ∷ b ∷ s) h = ground arith

length_of_address :
    (t : Bytes) (out : Bytes)
    → to_lower t ≡ t
    → has_0x t ≡ true
    → bytes_from_hex t ≡ some out
    → length out ≡ 20
    → length t ≡ 42
unfolding bytes_from_hex
length_of_address [] out i p h l = ground arith
length_of_address (c ∷ s) out i p h l =
    let e : decode_string (trim_0x (c ∷ s)) ≡ some out = rw i at h in
    omega (arith, length-trim_0x (c ∷ s) p, length-decode_string (trim_0x (c ∷ s)) out e)

-- A valid Ethereum address has the prefix `0x`, in either case, and forty digits.
pub is_valid_ethereum_address-length :
    (s : Bytes)
    → is_valid_ethereum_address s ≡ true
    → (has_0x (to_lower s) ≡ true) × (length s ≡ 42)
unfolding is_valid_ethereum_address
is_valid_ethereum_address-length s h = elim (Option-cases (bytes_from_hex (to_lower s))) [
  | inl n ↦ absurd (ground arith)
  | inr (b, n) ↦ elim (Bool-cases (length b == 20)) [
    | inr l ↦ absurd (ground arith)
    | inl l ↦
        let p : has_0x (to_lower s) ≡ true = ground arith in
        (
          p,
          omega (
            arith,
            length-to_lower s,
            length_of_address (to_lower s) b (to_lower_idem s) p n (==→eq _ _ l),
          ),
        )
  ]
]

-- A digit in either case.
abbrev pub IsHexDigit : ℕ → Type 0
IsHexDigit c = ((b'0' ≤ c) × (c ≤ b'9')) ⊎ ((b'a' ≤ c) × (c ≤ b'f')) ⊎ ((b'A' ≤ c) × (c ≤ b'F'))

hex_value-IsHexDigit : (c v : ℕ) → hex_value c ≡ some v → IsHexDigit c
unfolding hex_value
hex_value-IsHexDigit c v h = ground arith

hex_pair-digits :
    (a b : ℕ) (rest : Option Bytes) (out : Bytes)
    → hex_pair (hex_value a) (hex_value b) rest ≡ some out
    → IsHexDigit a × IsHexDigit b
unfolding hex_pair
hex_pair-digits a b rest out h = by_values (hex_value a) (hex_value b) rest refl refl h
  where
    by_values :
        (o p : Option ℕ) (r : Option Bytes)
        → hex_value a ≡ o
        → hex_value b ≡ p
        → hex_pair o p r ≡ some out
        → IsHexDigit a × IsHexDigit b
    by_values none p r e f k = absurd (ground arith)
    by_values (some m) none r e f k = absurd (ground arith)
    by_values (some m) (some n) r e f k = (hex_value-IsHexDigit a m e, hex_value-IsHexDigit b n f)

decode_string-digits : (s out : Bytes) → decode_string s ≡ some out → All IsHexDigit s
unfolding decode_string
decode_string-digits [] out h = tt
decode_string-digits (a ∷ []) out h = absurd (ground arith)
decode_string-digits (a ∷ b ∷ s) out h =
    let (r, e, l) = hex_pair-eq-some (hex_value a) (hex_value b) (decode_string s) out h in
    let d = hex_pair-digits a b (decode_string s) out h in (d.0, (d.1, decode_string-digits s r e))

bytes_from_hex-digits :
    (t out : Bytes) → to_lower t ≡ t → bytes_from_hex t ≡ some out → All IsHexDigit (trim_0x t)
unfolding bytes_from_hex
bytes_from_hex-digits [] out i h = absurd (ground arith)
bytes_from_hex-digits (c ∷ s) out i h =
    let e : decode_string (trim_0x (c ∷ s)) ≡ some out = rw i at h in
    decode_string-digits (trim_0x (c ∷ s)) out e

-- After the prefix, a valid Ethereum address has hexadecimal digits only.
pub is_valid_ethereum_address-digits :
    (s : Bytes) → is_valid_ethereum_address s ≡ true → All IsHexDigit (trim_0x (to_lower s))
unfolding is_valid_ethereum_address
is_valid_ethereum_address-digits s h = elim (Option-cases (bytes_from_hex (to_lower s))) [
  | inl n ↦ absurd (ground arith)
  | inr (b, n) ↦ bytes_from_hex-digits (to_lower s) b (to_lower_idem s) n
]
