-- ===== src/Common.antt =====
-- common/hex.go, common/cosmos.go and common/ethereum.go: addresses as text and as bytes.
pub mod HexLaws
use Prim.Native.Nat.{◌-◌}
use wpokt_validator.Base.{
  ℕ, ◌+◌, ◌*◌, Bool, true, false, ◌&&◌, Option, none, some, List, [], ◌∷◌, ◌++◌, length, leb, ◌==◌,
  if◌then◌else◌,
}
use wpokt_validator.Base.Bytes.{Bytes, bytes, to_lower, has_0x, trim_0x}
use wpokt_validator.External.{External}

abbrev pub address_length : ℕ
address_length = 20

abbrev pub zero_address : Bytes
zero_address = bytes "0x0000000000000000000000000000000000000000"

unfoldable pub hex_value : ℕ → Option ℕ
hex_value c =
    if leb b'0' c && leb c b'9'
    then some (c - b'0')
    else if leb b'a' c && leb c b'f'
    then some (c - b'a' + 10)
    else if leb b'A' c && leb c b'F'
    then some (c - b'A' + 10)
    else none

unfoldable pub hex_pair : Option ℕ → Option ℕ → Option Bytes → Option Bytes
hex_pair (some a) (some b) (some rest) = some ((a * 16 + b) ∷ rest)
hex_pair (some a) (some b) none = none
hex_pair (some a) none rest = none
hex_pair none b rest = none

-- `hex.DecodeString`
unfoldable pub decode_string : Bytes → Option Bytes
unfolding hex_value hex_pair
decode_string [] = some []
decode_string (a ∷ []) = none
decode_string (a ∷ b ∷ s) = hex_pair (hex_value a) (hex_value b) (decode_string s)

unfoldable pub hex_digit : ℕ → ℕ
hex_digit n = if leb n 9 then b'0' + n else b'a' + (n - 10)

-- `hex.EncodeToString`
unfoldable pub encode_to_string : Bytes → Bytes
unfolding hex_digit
encode_to_string [] = []
encode_to_string (b ∷ s) =
    hex_digit (Prim.Native.Nat.◌/◌ b 16) ∷ hex_digit (Prim.Native.Nat.◌%◌ b 16) ∷ encode_to_string s

unfoldable pub bytes_from_hex : Bytes → Option Bytes
unfolding decode_string
bytes_from_hex [] = none
bytes_from_hex (c ∷ s) = decode_string (trim_0x (to_lower (c ∷ s)))

unfoldable pub of_address_length : Option Bytes → Option Bytes
of_address_length none = none
of_address_length (some b) = if length b == address_length then some b else none

unfoldable pub bytes_from_address_hex : Bytes → Option Bytes
unfolding of_address_length bytes_from_hex
bytes_from_address_hex addr = of_address_length (bytes_from_hex addr)

unfoldable pub is_some : Option Bytes → Bool
is_some none = false
is_some (some b) = true

unfoldable pub is_valid_ethereum_address : Bytes → Bool
unfolding bytes_from_address_hex is_some
is_valid_ethereum_address s = let t = to_lower s in is_some (bytes_from_address_hex t) && has_0x t

unfoldable pub ensure_0x_prefix : Bytes → Bytes
ensure_0x_prefix str = let t = to_lower str in if has_0x t then t else bytes "0x" ++ t

unfoldable pub hex_from_bytes : Bytes → Bytes
unfolding encode_to_string ensure_0x_prefix
hex_from_bytes b = ensure_0x_prefix (encode_to_string b)

unfoldable pub address_hex_from_bytes : Bytes → Option Bytes
unfolding hex_from_bytes
address_hex_from_bytes b = if length b == address_length then some (hex_from_bytes b) else none

module _ (ext : External) where
  unfoldable pub bech32_from_bytes : Bytes → Bytes → Option Bytes
  bech32_from_bytes prefix b =
      if length b == address_length then ext.bech32_encode prefix b else none

  unfoldable pub address_bytes_from_bech32 : Bytes → Bytes → Option Bytes
  unfolding of_address_length
  address_bytes_from_bech32 prefix address = of_address_length (ext.bech32_to_bytes prefix address)

  unfoldable pub is_valid_bech32_address : Bytes → Bytes → Bool
  unfolding address_bytes_from_bech32 is_some
  is_valid_bech32_address prefix address = is_some (address_bytes_from_bech32 prefix address)
