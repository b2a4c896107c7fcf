-- ===== src/BurnSigner/Validation.antt =====
-- ValidateBurn and ValidateInvalidMint of cosmos/signer.go.
pub mod Sound
pub mod Refund
use wpokt_validator.Base.{
  ℕ, ℤ, Bool, true, false, not, ◌&&◌, ◌||◌, Option, none, some, List, [], ◌∷◌, leb_ℤ, eqb_ℤ,
  to_word64, ◌==◌, if◌then◌else◌,
}
use wpokt_validator.Base.Bytes.{Bytes, eqb, equal_fold}
use wpokt_validator.Base.Decimal.{parse_int}
use wpokt_validator.Models.{Burn, InvalidMint}
use wpokt_validator.Models.Config.{Config}
use wpokt_validator.Models.Chain.{Coin, Tx, TxResponse, Log, BurnEvent}
use wpokt_validator.External.{External}
use wpokt_validator.Common.{address_bytes_from_bech32}
use wpokt_validator.ValidateTx.{ValidateTxResult, validate_tx_to_cosmos_multisig}
use wpokt_validator.Effect.{
  get_tx, get_transaction_receipt, Program, ret, fail, panic, ◌>>=◌, ask, lift,
}
use wpokt_validator.SignTx.{or_empty}

pub record BurnSignerRunner : Type 0 where
  pub public_key : Bytes
  pub multisig_address : Bytes
  pub cosmos_height : ℤ
  pub eth_block_number : ℤ
  pub vault_address : Bytes
  pub wpokt_address : Bytes
  pub minimum_amount : ℤ
  pub maximum_amount : ℤ

-- The first log with the index.
unfoldable pub find_log : ℕ → List Log → Option Log
find_log index [] = none
find_log index (log ∷ logs) = if log.index == index then some log else find_log index logs

module _ (ext : External) (cfg : Config) (x : BurnSignerRunner) where
  -- The recipient's bytes; `nil` where the address does not parse.
  abbrev pub recipient_bytes : Burn → Bytes
  recipient_bytes doc =
      or_empty (address_bytes_from_bech32 ext cfg.pocket.bech32_prefix doc.recipient_address)

  unfoldable pub matches_event : Burn → ℤ → BurnEvent → Bool
  matches_event doc amount event =
      if leb_ℤ amount x.minimum_amount
      then false
      else if not (eqb_ℤ event.amount amount)
      then false
      else if not (equal_fold (ext.address_hex event.from_address) doc.sender_address)
      then false
      else if not (eqb event.pokt_address (recipient_bytes doc))
      then false
      else true

  unfoldable pub matches_parsed : Burn → Option ℤ → Option BurnEvent → Bool
  matches_parsed doc amount none = false
  matches_parsed doc none (some event) = false
  matches_parsed doc (some amount) (some event) = matches_event doc amount event

  unfoldable pub matches_log : Burn → Option Log → Bool
  matches_log doc none = false
  matches_log doc (some log) =
      matches_parsed doc (ext.new_int_from_string doc.amount) (ext.parse_burn_and_bridge log)

  unfoldable pub matches_logs : Burn → Option ℤ → List Log → Bool
  matches_logs doc none logs = false
  matches_logs doc (some index) logs = matches_log doc (find_log (to_word64 index) logs)

  unfoldable pub validate_burn : Burn → Program Bool
  validate_burn doc = do
    receipt ← ask (get_transaction_receipt doc.transaction_hash)
    logs ← lift receipt
    ret (matches_logs doc (parse_int doc.log_index) logs)

  -- The body's memo, if the result has a transaction with a body.
  abbrev pub body_memo : Option Tx → Option Bytes
  body_memo none = none
  body_memo (some tx) = tx.body_memo

  unfoldable pub same_memo : InvalidMint → Option Bytes → Bool
  same_memo doc none = false
  same_memo doc (some memo) = eqb memo doc.memo

  -- `result.Amount.Amount.Equal(amount)`, which panics at the amount of `sdk.Coin{}`.
  unfoldable pub same_amount :
      InvalidMint → ValidateTxResult → Option Coin → Option ℤ → Program Bool
  same_amount doc result coin none = ret false
  same_amount doc result none (some amount) = panic
  same_amount doc result (some coin) (some amount) =
      ret (if not (eqb_ℤ coin.amount amount) then false else same_memo doc (body_memo result.tx))

  unfoldable pub judge_refund : InvalidMint → Option ValidateTxResult → Program Bool
  judge_refund doc none = panic
  judge_refund doc (some result) =
      if not result.tx_valid
      then ret false
      else if not cfg.pocket.mint_disabled && not result.needs_refund
      then ret false
      else if not (equal_fold result.sender_address doc.sender_address)
      then ret false
      else same_amount doc result result.amount (ext.new_int_from_string doc.amount)

  unfoldable pub validate_invalid_mint : InvalidMint → Program Bool
  validate_invalid_mint doc = do
    answer ← ask (get_tx doc.transaction_hash)
    found ← lift answer
    tx ← lift found
    judge_refund doc (validate_tx_to_cosmos_multisig ext cfg x.minimum_amount x.maximum_amount tx)
