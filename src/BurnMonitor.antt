-- ===== src/BurnMonitor.antt =====
-- eth/monitor.go and eth/util/monitor.go: the service that reads the burn events and stores a
-- burn for each.
pub mod Coverage
pub mod Requests
use wpokt_validator.Base.{
  ℕ, ℤ, pos, Bool, true, false, ◌&&◌, ◌||◌, Option, none, some, [], leb_ℤ, ltb_ℤ, of_word64, ◌%◌,
  ◌^◌, if◌then◌else◌,
}
use wpokt_validator.Base.Bytes.{Bytes, bytes, to_lower}
use wpokt_validator.Base.Decimal.{parse_int, format_int}
use wpokt_validator.Models.{Burn, pending}
use wpokt_validator.Models.Config.{Config}
use wpokt_validator.Models.Chain.{BurnEvent, Iterator, done, broken, item}
use wpokt_validator.External.{External}
use wpokt_validator.Common.{bech32_from_bytes}
use wpokt_validator.Effect.{
  InsertAnswer, inserted, duplicate, not_inserted, insert_burn, get_block_number,
  filter_burn_and_bridge, Program, ret, ◌>>=◌, ask,
}
use wpokt_validator.Sync.{sync_range, chunk_count}

pub record BurnMonitorRunner : Type 0 where
  pub start_block_number : ℤ
  pub current_block_number : ℤ
  pub minimum_amount : ℤ

-- The text of an error is dropped: `recipientAddress, _ := …`.
abbrev or_empty : Option Bytes → Bytes
or_empty none = []
or_empty (some s) = s

-- A duplicate key counts as stored.
abbrev pub is_stored : InsertAnswer → Bool
is_stored inserted = true
is_stored duplicate = true
is_stored not_inserted = false

-- `int64(n)` of a uint64
abbrev pub int64_of : ℕ → ℤ
int64_of n = of_word64 (n % 2 ^ 64)

module _ (ext : External) (cfg : Config) where
  unfoldable pub create_burn : BurnEvent → Burn
  create_burn event = record {
    id = [];
    transaction_hash = to_lower (ext.hash_hex event.raw.tx_hash);
    log_index = format_int (int64_of event.raw.index);
    block_number = format_int (int64_of event.raw.block_number);
    confirmations = bytes "0";
    sender_address = to_lower (ext.address_hex event.from_address);
    sender_chain_id = cfg.ethereum.chain_id;
    recipient_address =
        or_empty (bech32_from_bytes ext cfg.pocket.bech32_prefix event.pokt_address);
    recipient_chain_id = cfg.pocket.chain_id;
    wpokt_address = to_lower (ext.address_hex event.raw.address);
    amount = format_int event.amount;
    status = pending;
    return_transaction_body = [];
    signatures = [];
    sequence = none;
    return_transaction_hash = [];
  }

  unfoldable pub handle_burn_event : Option BurnEvent → Program Bool
  handle_burn_event none = ret false
  handle_burn_event (some event) = do
    answer ← ask (insert_burn (create_burn event))
    ret (is_stored answer)

module _ (ext : External) (cfg : Config) (minimum_amount : ℤ) where
  -- `event.Raw.Removed || event.Amount.Cmp(x.minimumAmount) != 1`
  abbrev pub is_skipped : BurnEvent → Bool
  is_skipped event = event.raw.removed || leb_ℤ event.amount minimum_amount

  -- The loop over the events, with the last look at the iterator's error.
  unfoldable pub walk : Iterator BurnEvent → Bool → Program Bool
  walk (done err) success = ret (if err then false else success)
  walk broken success = ret false
  walk (item none events) success = walk events false
  walk (item (some event) events) success =
      let rest = λ (ok : Bool). walk events ok in
      if is_skipped event
      then rest success
      else do ok ← handle_burn_event ext cfg (some event); rest (ok && success)

  unfoldable pub walk_filter : Option (Iterator BurnEvent) → Program Bool
  walk_filter none = ret false
  walk_filter (some events) = walk events true

  unfoldable pub sync_blocks : ℕ → ℕ → Program Bool
  sync_blocks start_block_number end_block_number = do
    filter ← ask (filter_burn_and_bridge start_block_number end_block_number)
    walk_filter filter

module _ (ext : External) (cfg : Config) (x : BurnMonitorRunner) where
  -- What is left to do with the outcome of the blocks; `none` is the loop that still runs.
  unfoldable pub finish : Option Bool → Option (BurnMonitorRunner × Bool)
  finish none = none
  finish (some success) =
      some
        (if success then record x { start_block_number = x.current_block_number } else x, success)

  unfoldable pub sync_txs : Program (Option (BurnMonitorRunner × Bool))
  sync_txs = if leb_ℤ x.current_block_number x.start_block_number then ret (some (x, true)) else do
    success ←
        sync_range (sync_blocks ext cfg x.minimum_amount) x.current_block_number
          (chunk_count x.start_block_number x.current_block_number) x.start_block_number
    ret (finish success)

abbrev set_current : BurnMonitorRunner → Option ℕ → BurnMonitorRunner
set_current x none = x
set_current x (some res) = record x { current_block_number = int64_of res }

unfoldable pub update_current_block_number : BurnMonitorRunner → Program BurnMonitorRunner
update_current_block_number x = do res ← ask get_block_number; ret (set_current x res)

unfoldable pub run_monitor :
    External → Config → BurnMonitorRunner → Program (Option (BurnMonitorRunner × Bool))
run_monitor ext cfg x = do x' ← update_current_block_number x; sync_txs ext cfg x'

abbrev last_block_number : ℤ → Option ℤ → ℤ
last_block_number start none = start
last_block_number start (some last) = last

unfoldable pub init_start_block_number : Config → BurnMonitorRunner → Bytes → BurnMonitorRunner
init_start_block_number cfg x eth_block_number =
    let start = last_block_number cfg.ethereum.start_block_number (parse_int eth_block_number) in
    record x { start_block_number = if ltb_ℤ (pos 0) start then start else x.current_block_number }
