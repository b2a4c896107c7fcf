-- ===== src/BurnSigner/Documents.antt =====
-- cosmos/signer.go: the changes that the burn signer makes to a document.
use wpokt_validator.Base.{ℕ, some, List, length, leb, if◌then◌else◌}
use wpokt_validator.Base.Bytes.{Bytes}
use wpokt_validator.Models.{Status, confirmed, signed, failed, Signature, Burn, InvalidMint}

-- What `Sign` sets.
pub record Signing : Type 0 where
  pub status : Status
  pub return_transaction_body : Bytes
  pub signatures : List Signature
  pub sequence : ℕ

-- The document is signed when the signatures reach the threshold.
unfoldable pub set_of : ℕ → ℕ → Bytes → List Signature → Signing
set_of threshold sequence body signatures = record {
  status = if leb threshold (length signatures) then signed else confirmed;
  return_transaction_body = body;
  signatures = signatures;
  sequence = sequence;
}

-- The `$set` document, by the branch that builds it.
pub data Update : Type 0 where
  mark_failed : Update
  set_status : Status → Bytes → Update
  set_signed : Signing → Update

unfoldable pub update_of_burn : Update → Burn → Burn
update_of_burn mark_failed b = record b { status = failed }
update_of_burn (set_status status confirmations) b = record b {
  status = status;
  confirmations = confirmations;
}
update_of_burn (set_signed s) b = record b {
  status = s.status;
  return_transaction_body = s.return_transaction_body;
  signatures = s.signatures;
  sequence = some s.sequence;
}

unfoldable pub update_of_invalid_mint : Update → InvalidMint → InvalidMint
update_of_invalid_mint mark_failed d = record d { status = failed }
update_of_invalid_mint (set_status status confirmations) d = record d {
  status = status;
  confirmations = confirmations;
}
update_of_invalid_mint (set_signed s) d = record d {
  status = s.status;
  return_transaction_body = s.return_transaction_body;
  signatures = s.signatures;
  sequence = some s.sequence;
}
