-- ===== src/Memo.antt =====
-- cosmos/util/memo.go: who receives the wrapped tokens, and on which chain.
pub mod Shape
use wpokt_validator.Base.{
  ℕ, Bool, true, false, not, ◌&&◌, Option, none, some, List, [], ◌∷◌, ◌==◌, if◌then◌else◌,
}
use wpokt_validator.Base.Bytes.{Bytes, eqb, equal_fold, to_lower}
use wpokt_validator.Models.{MintMemo}
use wpokt_validator.External.{External}
use wpokt_validator.Common.{zero_address, is_valid_ethereum_address}

unfoldable pub trim_left : Bytes → Bytes
trim_left [] = []
trim_left (c ∷ s) = if c == b' ' then trim_left s else c ∷ s

unfoldable pub all_spaces : Bytes → Bool
all_spaces [] = true
all_spaces (c ∷ s) = c == b' ' && all_spaces s

unfoldable pub trim_right : Bytes → Bytes
unfolding all_spaces
trim_right [] = []
trim_right (c ∷ s) = let rest = trim_right s in if all_spaces (c ∷ s) then [] else c ∷ rest

-- `strings.Trim(s, " ")`
unfoldable pub trim : Bytes → Bytes
unfolding trim_left trim_right
trim s = trim_right (trim_left s)

unfoldable pub is_number : Option ℕ → Bool
is_number none = false
is_number (some n) = true

module _ (ext : External) (chain_id : Bytes) where
  unfoldable pub check_memo : MintMemo → Option MintMemo
  check_memo memo =
      if not (is_valid_ethereum_address memo.address)
      then none
      else if equal_fold memo.address zero_address
      then none
      else if not (is_number (ext.parse_uint64 memo.chain_id))
      then none
      else if not (eqb memo.chain_id chain_id)
      then none
      else some memo

  abbrev normalize : MintMemo → MintMemo
  normalize memo = record {
    address = trim (to_lower memo.address);
    chain_id = trim (to_lower memo.chain_id);
  }

  unfoldable pub check_unmarshalled : Option MintMemo → Option MintMemo
  check_unmarshalled none = none
  check_unmarshalled (some memo) = check_memo (normalize memo)

  -- The memo, where the source returns no error.
  unfoldable pub validate_memo : Bytes → Option MintMemo
  unfolding check_unmarshalled check_memo is_number
  validate_memo tx_memo = check_unmarshalled (ext.unmarshal_memo tx_memo)
