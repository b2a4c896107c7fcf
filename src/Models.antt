-- ===== src/Models.antt =====
-- models/*.go: the stored documents, the configuration and the status of a document.
-- The creation and update times, which no code of the repository reads, are left out.
pub mod Config
pub mod Chain
use wpokt_validator.Base.{ℕ, Bool, true, false, Option, List, ◌||◌}
use wpokt_validator.Base.Bytes.{Bytes}

-- models/status.go
pub data Status : Type 0 where
  pending confirmed signed submitted success failed : Status

abbrev pub is_pending : Status → Bool
is_pending pending = true
is_pending _ = false

abbrev pub is_confirmed : Status → Bool
is_confirmed confirmed = true
is_confirmed _ = false

abbrev pub is_signed : Status → Bool
is_signed signed = true
is_signed _ = false

abbrev pub is_submitted : Status → Bool
is_submitted submitted = true
is_submitted _ = false

abbrev pub is_success : Status → Bool
is_success success = true
is_success _ = false

-- `{"$in": [pending, confirmed]}`
abbrev pub is_open : Status → Bool
is_open s = is_pending s || is_confirmed s

pub record Signature : Type 0 where
  pub signer : Bytes
  pub signature : Bytes

-- `sequence` is `nil` or a uint64.
pub record Burn : Type 0 where
  pub id : Bytes
  pub transaction_hash : Bytes
  pub log_index : Bytes
  pub block_number : Bytes
  pub confirmations : Bytes
  pub sender_address : Bytes
  pub sender_chain_id : Bytes
  pub recipient_address : Bytes
  pub recipient_chain_id : Bytes
  pub wpokt_address : Bytes
  pub amount : Bytes
  pub status : Status
  pub return_transaction_body : Bytes
  pub signatures : List Signature
  pub sequence : Option ℕ
  pub return_transaction_hash : Bytes

pub record InvalidMint : Type 0 where
  pub id : Bytes
  pub transaction_hash : Bytes
  pub height : Bytes
  pub confirmations : Bytes
  pub sender_address : Bytes
  pub sender_chain_id : Bytes
  pub vault_address : Bytes
  pub amount : Bytes
  pub status : Status
  pub memo : Bytes
  pub return_transaction_body : Bytes
  pub signatures : List Signature
  pub sequence : Option ℕ
  pub return_transaction_hash : Bytes

pub record MintMemo : Type 0 where
  pub address : Bytes
  pub chain_id : Bytes

pub record MintData : Type 0 where
  pub recipient : Bytes
  pub amount : Bytes
  pub nonce : Bytes

-- A nil slice and an empty one are both `[]`: the code only tests them for one or the other.
pub record Mint : Type 0 where
  pub id : Bytes
  pub transaction_hash : Bytes
  pub height : Bytes
  pub confirmations : Bytes
  pub sender_address : Bytes
  pub sender_chain_id : Bytes
  pub recipient_address : Bytes
  pub recipient_chain_id : Bytes
  pub wpokt_address : Bytes
  pub vault_address : Bytes
  pub amount : Bytes
  pub nonce : Bytes
  pub memo : Option MintMemo
  pub status : Status
  pub mint_data : Option MintData
  pub signers : List Bytes
  pub signatures : List Bytes
  pub mint_transaction_hash : Bytes
