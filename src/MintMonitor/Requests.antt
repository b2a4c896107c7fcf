-- ===== src/MintMonitor/Requests.antt =====
-- The requests of SyncTxs of cosmos/monitor.go.
use wpokt_validator.Base.{
  ◌≡◌, refl, Bool, true, false, Option, none, some, List, [], ◌∷◌, arith, ◌⊎◌, ◌&&◌, not, ◌||◌,
}
use wpokt_validator.Models.{Mint, InvalidMint}
use wpokt_validator.Models.Config.{Config}
use wpokt_validator.Models.Chain.{TxResponse}
use wpokt_validator.External.{External}
use wpokt_validator.ValidateTx.{ValidateTxResult, validate_tx_to_cosmos_multisig}
use wpokt_validator.Effect.{
  Request, insert_mint, insert_invalid_mint, find_mint, find_invalid_mint,
  get_txs_sent_to_address_after_height,
}
use wpokt_validator.Effect.Ensures.{
  Issues, Ensures-ret, Ensures-panic, Ensures-ask, Issues-bind, Ensures-if,
}
use wpokt_validator.MintMonitor.Documents.{create_mint, create_invalid_mint, create_failed_mint}
use wpokt_validator.MintMonitor.{
  MintMonitorRunner, handle_failed_mint, handle_invalid_mint, handle_valid_mint, dispatch, sync_tx,
  sync_each, sync_found, sync_txs,
}

module _ (ext : External) (cfg : Config) (x : MintMonitorRunner) where
  -- The verdict on a transaction, at the monitor's limits.
  abbrev pub Judged : TxResponse → ValidateTxResult → Type 0
  Judged tx result =
      validate_tx_to_cosmos_multisig ext cfg x.minimum_amount x.maximum_amount tx ≡ some result

  -- A mint is stored only of a transaction that is valid and needs no refund, while minting is
  -- enabled. A failed mint is stored only of an invalid transaction, and a pending invalid mint
  -- only of a valid one that needs a refund or comes while minting is disabled.
  pub data IsWarranted : Request → Type 0 where
    mint :
        (tx : TxResponse) (result : ValidateTxResult)
        → Judged tx result
        → result.tx_valid ≡ true
        → result.needs_refund ≡ false
        → cfg.pocket.mint_disabled ≡ false
        → IsWarranted (insert_mint (create_mint ext cfg tx result x.wpokt_address x.vault_address))
    failed_mint :
        (tx : TxResponse) (result : ValidateTxResult)
        → Judged tx result
        → result.tx_valid ≡ false
        → IsWarranted (insert_invalid_mint (create_failed_mint ext cfg tx result x.vault_address))
    invalid_mint :
        (tx : TxResponse) (result : ValidateTxResult)
        → Judged tx result
        → result.tx_valid ≡ true
        → (result.needs_refund ≡ true) ⊎ (cfg.pocket.mint_disabled ≡ true)
        → IsWarranted (insert_invalid_mint (create_invalid_mint ext cfg tx result x.vault_address))
    looked_for_mint : (f : Mint → Bool) → IsWarranted (find_mint f)
    looked_for_invalid_mint : (f : InvalidMint → Bool) → IsWarranted (find_invalid_mint f)
    listed : (n : _) → IsWarranted (get_txs_sent_to_address_after_height x.vault_address n)

  ruleset rules = (
    Ensures-ret, Ensures-panic, Ensures-ask, Issues-bind, Ensures-if, looked_for_mint,
    looked_for_invalid_mint, listed,
  )

  module _ (tx : TxResponse) (result : ValidateTxResult) (j : Judged tx result) where
    handle_failed_mint-Issues :
        result.tx_valid ≡ false
        → Issues IsWarranted (handle_failed_mint ext cfg x (some tx) (some result))
    unfolding handle_failed_mint
    handle_failed_mint-Issues v = search (rules, failed_mint)

    handle_invalid_mint-Issues :
        result.tx_valid ≡ true
        → (result.needs_refund ≡ true) ⊎ (cfg.pocket.mint_disabled ≡ true)
        → Issues IsWarranted (handle_invalid_mint ext cfg x (some tx) (some result))
    unfolding handle_invalid_mint
    handle_invalid_mint-Issues v r = search (rules, invalid_mint) depth 9

    handle_valid_mint-Issues :
        result.tx_valid ≡ true
        → result.needs_refund ≡ false
        → Issues IsWarranted (handle_valid_mint ext cfg x (some tx) (some result))
    unfolding handle_valid_mint
    handle_valid_mint-Issues v r = search (rules, mint) depth 9

  dispatch-Issues :
      (tx : TxResponse) (o : Option ValidateTxResult)
      → validate_tx_to_cosmos_multisig ext cfg x.minimum_amount x.maximum_amount tx ≡ o
      → Issues IsWarranted (dispatch ext cfg x tx o)
  unfolding dispatch
  dispatch-Issues tx none e = Ensures-panic
  dispatch-Issues tx (some r) e =
      Ensures-if (not r.tx_valid) _ _ (λ v. handle_failed_mint-Issues tx r e (ground arith))
        (λ v.
          Ensures-if (r.needs_refund || cfg.pocket.mint_disabled) _ _
            (λ n. handle_invalid_mint-Issues tx r e (ground arith) (ground arith))
            (λ n. handle_valid_mint-Issues tx r e (ground arith) (ground arith)))

  sync_each-Issues :
      (txs : List TxResponse) (success : Bool)
      → Issues IsWarranted (sync_each ext cfg x txs success)
  unfolding sync_each sync_tx
  sync_each-Issues [] success = Ensures-ret success tt
  sync_each-Issues (tx ∷ txs) success =
      Issues-bind _ _ (dispatch-Issues tx _ refl) (λ ok. sync_each-Issues txs (ok && success))

  sync_found-Issues : (o : Option (List TxResponse)) → Issues IsWarranted (sync_found ext cfg x o)
  unfolding sync_found
  sync_found-Issues none = search rules
  sync_found-Issues (some txs) = search (rules, sync_each-Issues)

  -- Whatever the database and the chain answer, a sync of the mint monitor stores nothing but
  -- mints, failed mints and invalid mints that the verdict on a transaction warrants.
  pub mint_monitor-IsWarranted : Issues IsWarranted (sync_txs ext cfg x)
  unfolding sync_txs
  mint_monitor-IsWarranted = search (rules, sync_found-Issues) depth 9
