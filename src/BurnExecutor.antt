-- ===== src/BurnExecutor.antt =====
-- cosmos/executor.go: the service that submits the signed transactions of burns and invalid mints
-- and follows them to their end.
pub mod Signatures
pub mod Lifecycle
pub mod Outcome
use wpokt_validator.Base.{
  ℕ, Bool, true, false, ◌&&◌, ◌||◌, Option, none, some, List, [], ◌++◌, ◌==◌, if◌then◌else◌,
}
use wpokt_validator.Base.Bytes.{Bytes, bytes, eqb}
use wpokt_validator.Models.{
  Status, pending, confirmed, signed, submitted, success, failed, is_signed, is_submitted, Burn,
  InvalidMint,
}
use wpokt_validator.Models.Config.{Config}
use wpokt_validator.Models.Chain.{TxResponse}
use wpokt_validator.External.{External}
use wpokt_validator.External.Sdk.{Sdk}
use wpokt_validator.Common.{ensure_0x_prefix}
use wpokt_validator.Effect.{
  find_burns, find_invalid_mints, update_burn, update_invalid_mint, get_tx, broadcast_tx, Program,
  ret, fail, panic, ◌>>=◌, ◌>>◌, ask, lift, require, settle,
}
use wpokt_validator.Sync.{sync_found}
use wpokt_validator.BurnExecutor.Signatures.{BurnExecutorRunner, add_multisignature}

-- The `$set` document, by the branch that builds it.
pub data Update : Type 0 where
  set_submitted : Bytes → Bytes → Update
  set_retried : Update
  set_succeeded : Update

unfoldable pub update_of_burn : Update → Burn → Burn
update_of_burn (set_submitted body hash) b = record b {
  status = submitted;
  return_transaction_body = body;
  return_transaction_hash = hash;
}
update_of_burn set_retried b = record b {
  status = confirmed;
  return_transaction_body = [];
  signatures = [];
  sequence = none;
  return_transaction_hash = [];
}
update_of_burn set_succeeded b = record b { status = success }

unfoldable pub update_of_invalid_mint : Update → InvalidMint → InvalidMint
update_of_invalid_mint (set_submitted body hash) d = record d {
  status = submitted;
  return_transaction_body = body;
  return_transaction_hash = hash;
}
update_of_invalid_mint set_retried d = record d {
  status = confirmed;
  return_transaction_body = [];
  signatures = [];
  sequence = none;
  return_transaction_hash = [];
}
update_of_invalid_mint set_succeeded d = record d { status = success }

-- `*doc.Sequence`
unfoldable pub deref : Option ℕ → Program ℕ
deref none = panic
deref (some n) = ret n

module _ (sdk : Sdk) (cfg : Config) (x : BurnExecutorRunner) where
  -- The signed transaction is completed and broadcast.
  unfoldable pub submit : Bytes → Option ℕ → Program Update
  submit body sequence = do
    builder ← lift (sdk.wrap_tx_builder cfg.pocket.bech32_prefix body)
    n ← deref sequence
    complete ← add_multisignature sdk cfg x n builder
    tx_json ← lift (sdk.tx_json complete)
    tx_bytes ← lift (sdk.tx_bytes complete)
    answer ← ask (broadcast_tx tx_bytes)
    tx_hash ← lift answer
    ret (set_submitted tx_json (ensure_0x_prefix tx_hash))

  -- `tx.Code` of a nil response panics.
  unfoldable pub outcome_of : Option TxResponse → Program Update
  outcome_of none = panic
  outcome_of (some tx) = ret (if tx.code == 0 then set_succeeded else set_retried)

  unfoldable pub check : Bytes → Program Update
  check hash = do answer ← ask (get_tx hash); tx ← lift answer; outcome_of tx

  -- The status that the write asks for is the one that the update was decided at.
  abbrev pub status_of : Update → Status → Bool
  status_of (set_submitted body hash) = is_signed
  status_of set_retried = is_submitted
  status_of set_succeeded = is_submitted

  abbrev pub burn_filter : Update → Burn → Burn → Bool
  burn_filter update doc b = eqb b.id doc.id && status_of update b.status

  abbrev pub invalid_mint_filter : Update → InvalidMint → InvalidMint → Bool
  invalid_mint_filter update doc d = eqb d.id doc.id && status_of update d.status

  unfoldable pub write_burn : Burn → Update → Program Bool
  write_burn doc update = do
    updated ← ask (update_burn (burn_filter update doc) (update_of_burn update))
    require updated
    ret true

  unfoldable pub write_invalid_mint : InvalidMint → Update → Program Bool
  write_invalid_mint doc update = do
    updated ←
        ask (update_invalid_mint (invalid_mint_filter update doc) (update_of_invalid_mint update))
    require updated
    ret true

  -- The switch on the status. At another one the filter and the update stay nil, and the driver
  -- refuses a nil document.
  unfoldable pub next_update : Status → Bytes → Option ℕ → Bytes → Program Update
  next_update signed body sequence hash = submit body sequence
  next_update submitted body sequence hash = check hash
  next_update pending body sequence hash = fail
  next_update confirmed body sequence hash = fail
  next_update success body sequence hash = fail
  next_update failed body sequence hash = fail

  unfoldable pub process_burn : Burn → Program Bool
  process_burn doc = do
    update ←
        next_update doc.status doc.return_transaction_body doc.sequence doc.return_transaction_hash
    write_burn doc update

  unfoldable pub process_invalid_mint : InvalidMint → Program Bool
  process_invalid_mint doc = do
    update ←
        next_update doc.status doc.return_transaction_body doc.sequence doc.return_transaction_hash
    write_invalid_mint doc update

  unfoldable pub handle_burn : Option Burn → Program Bool
  handle_burn none = ret false
  handle_burn (some doc) = settle (process_burn doc)

  unfoldable pub handle_invalid_mint : Option InvalidMint → Program Bool
  handle_invalid_mint none = ret false
  handle_invalid_mint (some doc) = settle (process_invalid_mint doc)

  abbrev pub ready_burns : Burn → Bool
  ready_burns b =
      (is_signed b.status || is_submitted b.status) && eqb b.wpokt_address x.wpokt_address

  abbrev pub ready_invalid_mints : InvalidMint → Bool
  ready_invalid_mints d =
      (is_signed d.status || is_submitted d.status) && eqb d.vault_address x.vault_address

  unfoldable pub sync_burns : Program Bool
  sync_burns = do
    found ← ask (find_burns ready_burns)
    sync_found (λ (b : Burn). bytes "burns/" ++ b.id) (λ b. handle_burn (some b)) found

  unfoldable pub sync_invalid_mints : Program Bool
  sync_invalid_mints = do
    found ← ask (find_invalid_mints ready_invalid_mints)
    sync_found (λ (d : InvalidMint). bytes "invalidMints/" ++ d.id)
        (λ d. handle_invalid_mint (some d)) found

  unfoldable pub sync_txs : Program Bool
  sync_txs = do first ← sync_invalid_mints; second ← sync_burns; ret (second && first)
