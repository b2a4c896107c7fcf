-- ===== src/BurnExecutor/Outcome.antt =====
-- What cosmos/executor.go asks the database for, by the answers of the chain.
use wpokt_validator.Base.{◌≡◌, ◌≢◌, true, some}
use wpokt_validator.Base.Bytes.{Bytes, eqb}
use wpokt_validator.Models.{Status, signed, submitted, Burn}
use wpokt_validator.Models.Config.{Config}
use wpokt_validator.Models.Chain.{TxResponse}
use wpokt_validator.External.Sdk.{Sdk}
use wpokt_validator.Common.{ensure_0x_prefix}
use wpokt_validator.Effect.{
  Request, Program, fail, panic, call, insert_burn, insert_mint, insert_invalid_mint, update_burn,
  update_mint, update_invalid_mint, get_tx, broadcast_tx,
}
use wpokt_validator.Effect.Run.{Environment}
use wpokt_validator.BurnExecutor.{
  Update, set_submitted, set_retried, set_succeeded, update_of_burn, status_of,
}
use wpokt_validator.BurnExecutor.Signatures.{BurnExecutorRunner}

module _ (sdk : Sdk) (cfg : Config) (x : BurnExecutorRunner) (env : Environment) where
  -- What the chain answered: a signed transaction was taken, under the hash that is stored; a
  -- submitted one is found, and it failed or not.
  abbrev pub IsOutcome : Status → Bytes → Update → Type 0
  IsOutcome status hash (set_submitted body new_hash) =
      (status ≡ signed)
      × ((tx : Bytes) × (taken : Bytes) × (env (broadcast_tx tx) ≡ some taken)
          × (new_hash ≡ ensure_0x_prefix taken))
  IsOutcome status hash set_retried =
      (status ≡ submitted)
      × ((tx : TxResponse) × (env (get_tx hash) ≡ some (some tx)) × (tx.code ≢ 0))
  IsOutcome status hash set_succeeded =
      (status ≡ submitted)
      × ((tx : TxResponse) × (env (get_tx hash) ≡ some (some tx)) × (tx.code ≡ 0))

  -- Nothing is changed but burns, and these by an outcome: the document itself, if it still has
  -- the status.
  abbrev pub IsExecution : Burn → Request → Type 0
  IsExecution doc (insert_burn b) = ⊥
  IsExecution doc (insert_mint m) = ⊥
  IsExecution doc (insert_invalid_mint d) = ⊥
  IsExecution doc (update_burn f u) =
      (update : Update) × IsOutcome doc.status doc.return_transaction_hash update
      × ((b : Burn)
          → f b ≡ true
          → (eqb b.id doc.id ≡ true)
            × (status_of sdk cfg x update b.status ≡ true)
            × (u b ≡ update_of_burn update b))
  IsExecution doc (update_mint f u) = ⊥
  IsExecution doc (update_invalid_mint f u) = ⊥
  IsExecution doc r = Unit
