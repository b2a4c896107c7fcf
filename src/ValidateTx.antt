-- ===== src/ValidateTx.antt =====
-- cosmos/util/validate_tx.go: what the bridge makes of a transaction to the vault.
pub mod Verdict
use wpokt_validator.Base.{
  ℤ, pos, Bool, true, false, not, Option, none, some, List, [], ◌∷◌, leb_ℤ, ltb_ℤ, eqb_ℤ, ◌==◌,
  if◌then◌else◌,
}
use wpokt_validator.Base.Bytes.{Bytes}
use wpokt_validator.Models.{MintMemo}
use wpokt_validator.Models.Config.{Config}
use wpokt_validator.Models.Chain.{Coin, Tx, TxResponse}
use wpokt_validator.External.{External}
use wpokt_validator.Common.{ensure_0x_prefix}
use wpokt_validator.Events.{TransferEvent, parse_transfer_events}
use wpokt_validator.Memo.{validate_memo}

-- `amount` is `none` where the source leaves `sdk.Coin{}`.
pub record ValidateTxResult : Type 0 where
  pub tx_valid : Bool
  pub tx : Option Tx
  pub tx_hash : Bytes
  pub memo : MintMemo
  pub amount : Option Coin
  pub sender_address : Bytes
  pub needs_refund : Bool

module _ (ext : External) (cfg : Config) (min_amount max_amount : ℤ) where
  -- The memo's verdict on a transaction that is valid.
  unfoldable pub judge_memo : ValidateTxResult → Coin → Option MintMemo → ValidateTxResult
  judge_memo result coin none = record result { needs_refund = true }
  judge_memo result coin (some memo) = record result {
    memo = memo;
    needs_refund = ltb_ℤ max_amount coin.amount;
  }

  -- `none`: `tx.Body.Memo` where the body is nil, which panics.
  unfoldable pub judge_tx : ValidateTxResult → Coin → Option Tx → Option ValidateTxResult
  unfolding judge_memo
  judge_tx result coin none = some result
  judge_tx result coin (some tx) = elim tx.body_memo [
    | none ↦ none
    | some memo ↦ some (
        judge_memo (record result { tx = some tx; tx_valid = true }) coin
          (validate_memo ext cfg.ethereum.chain_id memo))
  ]

  unfoldable pub judge_transfers :
      TxResponse → ValidateTxResult → Option (List TransferEvent) → Option ValidateTxResult
  unfolding judge_tx
  judge_transfers response result none = some result
  judge_transfers response result (some []) = some result
  judge_transfers response result (some (t ∷ u ∷ ts)) = some result
  judge_transfers response result (some (t ∷ [])) =
      let seen = record result { sender_address = t.sender; amount = some t.amount } in
      if eqb_ℤ t.amount.amount (pos 0)
      then some seen
      else if leb_ℤ t.amount.amount min_amount
      then some seen
      else judge_tx seen t.amount (ext.unmarshal_tx response.tx_value)

  abbrev unjudged : TxResponse → ValidateTxResult
  unjudged response = record {
    tx_valid = false;
    tx = none;
    tx_hash = ensure_0x_prefix response.tx_hash;
    memo = record { address = []; chain_id = [] };
    amount = none;
    sender_address = [];
    needs_refund = false;
  }

  unfoldable pub validate_tx_to_cosmos_multisig : TxResponse → Option ValidateTxResult
  unfolding judge_transfers
  validate_tx_to_cosmos_multisig response =
      if not (response.code == 0)
      then some (unjudged response)
      else judge_transfers response (unjudged response) (
          parse_transfer_events ext cfg.pocket.multisig_address cfg.pocket.coin_denom
            response.events)
