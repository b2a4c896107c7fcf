-- ===== src/Memo/Shape.antt =====
-- The memos that ValidateMemo of cosmos/util/memo.go lets through.
use wpokt_validator.Base.{
  ◌≡◌, true, false, Option, none, some, arith, length, Bool-cases, inl, inr, All,
}
use wpokt_validator.Base.Bytes.{Bytes, eqb, eqb→eq, equal_fold, has_0x, to_lower, trim_0x}
use wpokt_validator.Models.{MintMemo}
use wpokt_validator.External.{External}
use wpokt_validator.Common.{zero_address, is_valid_ethereum_address}
use wpokt_validator.Common.HexLaws.{
  IsHexDigit, is_valid_ethereum_address-length, is_valid_ethereum_address-digits,
}
use wpokt_validator.Memo.{check_memo, check_unmarshalled, validate_memo}

-- Its address has the form of an Ethereum address and is not the zero address, and its chain is
-- the one that the validator serves.
pub record IsPayable (chain_id : Bytes) (memo : MintMemo) : Type 0 where
  pub prefixed : has_0x (to_lower memo.address) ≡ true
  pub sized : length memo.address ≡ 42
  pub digits : All IsHexDigit (trim_0x (to_lower memo.address))
  pub nonzero : equal_fold memo.address zero_address ≡ false
  pub served : memo.chain_id ≡ chain_id

module _ (ext : External) (chain_id : Bytes) (memo : MintMemo) where
  check_memo-IsPayable :
      (m : MintMemo) → check_memo ext chain_id m ≡ some memo → IsPayable chain_id memo
  unfolding check_memo
  check_memo-IsPayable m h = elim (Bool-cases (is_valid_ethereum_address m.address)) [
    | inr v ↦ absurd (ground arith)
    | inl v ↦ elim (Bool-cases (eqb m.chain_id chain_id)) [
      | inr c ↦ absurd (ground arith)
      | inl c ↦
          let e : m ≡ memo = ground arith in
          let z : equal_fold m.address zero_address ≡ false = ground arith in
          let shape : (has_0x (to_lower m.address) ≡ true) × (length m.address ≡ 42) =
            is_valid_ethereum_address-length m.address v in
          rw (← e) (record {
            prefixed = shape.0;
            sized = shape.1;
            digits = is_valid_ethereum_address-digits m.address v;
            nonzero = z;
            served = eqb→eq m.chain_id chain_id c;
          })
    ]
  ]

  check_unmarshalled-IsPayable :
      (o : Option MintMemo)
      → check_unmarshalled ext chain_id o ≡ some memo
      → IsPayable chain_id memo
  unfolding check_unmarshalled
  check_unmarshalled-IsPayable none h = absurd (ground arith)
  check_unmarshalled-IsPayable (some m) h = check_memo-IsPayable _ h

  -- A memo that passes names an address of the Ethereum form other than zero (the prefix `0x` and
  -- forty hexadecimal digits), and the chain that the validator serves.
  pub validate_memo-IsPayable :
      (text : Bytes) → validate_memo ext chain_id text ≡ some memo → IsPayable chain_id memo
  unfolding validate_memo
  validate_memo-IsPayable text h = check_unmarshalled-IsPayable (ext.unmarshal_memo text) h
