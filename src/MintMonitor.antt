-- ===== src/MintMonitor.antt =====
-- cosmos/monitor.go and cosmos/util/monitor.go: the service that reads the transactions to the
-- vault and stores a mint, an invalid mint or a failed mint for each.
pub mod Documents
pub mod Requests
pub mod Progress
use wpokt_validator.Base.{
  ℤ, pos, Bool, true, false, not, ◌&&◌, ◌||◌, Option, none, some, List, [], ◌∷◌, leb_ℤ, ltb_ℤ,
  to_word64, if◌then◌else◌,
}
use wpokt_validator.Base.Bytes.{Bytes, eqb}
use wpokt_validator.Base.Decimal.{parse_int, format_int}
use wpokt_validator.Models.{Mint, InvalidMint}
use wpokt_validator.Models.Config.{Config}
use wpokt_validator.Models.Chain.{TxResponse}
use wpokt_validator.External.{External}
use wpokt_validator.ValidateTx.{ValidateTxResult, validate_tx_to_cosmos_multisig}
use wpokt_validator.Effect.{
  InsertAnswer, inserted, duplicate, not_inserted, Request, insert_mint, insert_invalid_mint,
  find_mint, find_invalid_mint, get_latest_block_height, get_txs_sent_to_address_after_height,
  max_mint_limit, Program, ret, panic, ◌>>=◌, ask,
}
use wpokt_validator.MintMonitor.Documents.{create_mint, create_invalid_mint, create_failed_mint}

pub record MintMonitorRunner : Type 0 where
  pub wpokt_address : Bytes
  pub vault_address : Bytes
  pub start_height : ℤ
  pub current_height : ℤ
  pub minimum_amount : ℤ
  pub maximum_amount : ℤ

-- A duplicate key counts as stored.
abbrev pub is_stored : InsertAnswer → Bool
is_stored inserted = true
is_stored duplicate = true
is_stored not_inserted = false

module _ (ext : External) (cfg : Config) (x : MintMonitorRunner) where
  unfoldable pub handle_failed_mint : Option TxResponse → Option ValidateTxResult → Program Bool
  handle_failed_mint none result = ret false
  handle_failed_mint (some tx) none = ret false
  handle_failed_mint (some tx) (some result) = do
    answer ← ask (insert_invalid_mint (create_failed_mint ext cfg tx result x.vault_address))
    ret (is_stored answer)

  unfoldable pub store_invalid_mint : InvalidMint → Program Bool
  store_invalid_mint doc = do answer ← ask (insert_invalid_mint doc); ret (is_stored answer)

  unfoldable pub handle_invalid_mint : Option TxResponse → Option ValidateTxResult → Program Bool
  unfolding store_invalid_mint
  handle_invalid_mint none result = ret false
  handle_invalid_mint (some tx) none = ret false
  handle_invalid_mint (some tx) (some result) =
      let doc = create_invalid_mint ext cfg tx result x.vault_address in
      if cfg.pocket.mint_disabled
      then (do
        found ← ask (find_mint (λ m. eqb m.transaction_hash doc.transaction_hash))
        if found then ret true else store_invalid_mint doc)
      else store_invalid_mint doc

  unfoldable pub handle_valid_mint : Option TxResponse → Option ValidateTxResult → Program Bool
  handle_valid_mint none result = ret false
  handle_valid_mint (some tx) none = ret false
  handle_valid_mint (some tx) (some result) =
      let doc = create_mint ext cfg tx result x.wpokt_address x.vault_address in
      if cfg.pocket.mint_disabled then ret true else do
        found ← ask (find_invalid_mint (λ m. eqb m.transaction_hash doc.transaction_hash))
        if found then ret true else do answer ← ask (insert_mint doc); ret (is_stored answer)

  -- The body of the loop of `SyncTxs`.
  unfoldable pub dispatch : TxResponse → Option ValidateTxResult → Program Bool
  dispatch tx none = panic
  dispatch tx (some result) =
      if not result.tx_valid
      then handle_failed_mint (some tx) (some result)
      else if result.needs_refund || cfg.pocket.mint_disabled
      then handle_invalid_mint (some tx) (some result)
      else handle_valid_mint (some tx) (some result)

  unfoldable pub sync_tx : TxResponse → Program Bool
  unfolding dispatch
  sync_tx tx =
      dispatch tx (validate_tx_to_cosmos_multisig ext cfg x.minimum_amount x.maximum_amount tx)

  unfoldable pub sync_each : List TxResponse → Bool → Program Bool
  sync_each [] success = ret success
  sync_each (tx ∷ txs) success = do ok ← sync_tx tx; sync_each txs (ok && success)

  unfoldable pub sync_found : Option (List TxResponse) → Program (MintMonitorRunner × Bool)
  sync_found none = ret (x, false)
  sync_found (some txs) = do
    success ← sync_each txs true
    ret (if success then record x { start_height = x.current_height } else x, success)

  unfoldable pub sync_txs : Program (MintMonitorRunner × Bool)
  sync_txs = if leb_ℤ x.current_height x.start_height then ret (x, true) else do
    txs ← ask (get_txs_sent_to_address_after_height x.vault_address (to_word64 x.start_height))
    sync_found txs

abbrev set_current : MintMonitorRunner → Option ℤ → MintMonitorRunner
set_current x none = x
set_current x (some height) = record x { current_height = height }

abbrev set_maximum : MintMonitorRunner → Option ℤ → MintMonitorRunner
set_maximum x none = x
set_maximum x (some limit) = record x { maximum_amount = limit }

unfoldable pub update_current_height : MintMonitorRunner → Program MintMonitorRunner
update_current_height x = do height ← ask get_latest_block_height; ret (set_current x height)

unfoldable pub update_max_mint_limit : MintMonitorRunner → Program MintMonitorRunner
update_max_mint_limit x = do limit ← ask max_mint_limit; ret (set_maximum x limit)

unfoldable pub run_monitor : External → Config → MintMonitorRunner → Program MintMonitorRunner
run_monitor ext cfg x = do x' ← update_current_height x; synced ← sync_txs ext cfg x'; ret synced.0

abbrev start_or_current : MintMonitorRunner → ℤ → MintMonitorRunner
start_or_current x start = record x {
  start_height = if ltb_ℤ (pos 0) start then start else x.current_height;
}

-- The height in the last health report, if it parses, and else that of the configuration.
abbrev last_height : ℤ → Option ℤ → ℤ
last_height start none = start
last_height start (some height) = height

unfoldable pub init_start_height : Config → MintMonitorRunner → Bytes → MintMonitorRunner
init_start_height cfg x [] = start_or_current x cfg.pocket.start_height
init_start_height cfg x (c ∷ s) =
    start_or_current x (last_height cfg.pocket.start_height (parse_int (c ∷ s)))

-- The height that `Status` reports.
unfoldable pub status_height : MintMonitorRunner → Bytes
status_height x = format_int x.start_height
