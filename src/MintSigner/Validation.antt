-- ===== src/MintSigner/Validation.antt =====
-- ValidateMint of eth/signer.go.
pub mod Sound
use wpokt_validator.Base.{ℤ, Bool, true, false, not, ◌||◌, Option, none, some, eqb_ℤ, if◌then◌else◌}
use wpokt_validator.Base.Bytes.{Bytes, equal_fold}
use wpokt_validator.Models.{Mint}
use wpokt_validator.Models.Config.{Config}
use wpokt_validator.Models.Chain.{Coin, TxResponse}
use wpokt_validator.External.{External}
use wpokt_validator.ValidateTx.{ValidateTxResult, validate_tx_to_cosmos_multisig}
use wpokt_validator.Effect.{get_tx, Program, ret, fail, panic, ◌>>=◌, ask, lift}
use wpokt_validator.MintSigner.Nonce.{MintSignerRunner}

module _ (ext : External) (cfg : Config) (x : MintSignerRunner) where
  -- `result.Amount.Amount.Equal(amount)`, which panics at the amount of `sdk.Coin{}`.
  unfoldable pub same_amount : Option Coin → Option ℤ → Program Bool
  same_amount coin none = ret false
  same_amount none (some amount) = panic
  same_amount (some coin) (some amount) = ret (eqb_ℤ coin.amount amount)

  unfoldable pub judge_mint : Mint → Option ValidateTxResult → Program Bool
  judge_mint mint none = panic
  judge_mint mint (some result) =
      if result.needs_refund || not result.tx_valid
      then ret false
      else if not (equal_fold result.sender_address mint.sender_address)
      then ret false
      else if not (equal_fold result.memo.address mint.recipient_address)
      then ret false
      else if not (equal_fold result.memo.chain_id mint.recipient_chain_id)
      then ret false
      else same_amount result.amount (ext.new_int_from_string mint.amount)

  unfoldable pub validate_mint : Mint → Program Bool
  validate_mint mint = do
    answer ← ask (get_tx mint.transaction_hash)
    found ← lift answer
    tx ← lift found
    judge_mint mint (validate_tx_to_cosmos_multisig ext cfg x.minimum_amount x.maximum_amount tx)
