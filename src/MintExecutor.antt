-- ===== src/MintExecutor.antt =====
-- eth/executor.go: the service that marks the mints whose event is on the Ethereum chain.
pub mod Requests
use wpokt_validator.Base.{
  ℕ, ℤ, pos, Bool, true, false, ◌&&◌, ◌||◌, Option, none, some, ◌++◌, leb_ℤ, ltb_ℤ, if◌then◌else◌,
  refl,
}
use wpokt_validator.Base.Bytes.{Bytes, bytes, eqb, to_lower}
use wpokt_validator.Base.Decimal.{parse_int, format_int}
use wpokt_validator.Models.{Mint, success, is_confirmed, is_signed, is_success}
use wpokt_validator.Models.Config.{Config}
use wpokt_validator.Models.Chain.{MintedEvent, Iterator, done, broken, item}
use wpokt_validator.External.{External}
use wpokt_validator.Effect.{
  update_mint, get_block_number, filter_minted, x_lock, Program, ret, ◌>>=◌, ask,
}
use wpokt_validator.Sync.{under_lock, sync_range, chunk_count}
use wpokt_validator.BurnMonitor.{int64_of}

pub record MintExecutorRunner : Type 0 where
  pub start_block_number : ℤ
  pub current_block_number : ℤ
  pub vault_address : Bytes
  pub wpokt_address : Bytes

module _ (ext : External) (x : MintExecutorRunner) where
  -- The mints that an event is about.
  unfoldable pub minted_filter : MintedEvent → Mint → Bool
  minted_filter event m =
      eqb m.wpokt_address x.wpokt_address
      && eqb m.vault_address x.vault_address
      && eqb m.recipient_address (to_lower (ext.address_hex event.recipient))
      && eqb m.amount (format_int event.amount)
      && eqb m.nonce (format_int event.nonce)
      && (is_confirmed m.status || is_signed m.status || is_success m.status)

  unfoldable pub minted_update : MintedEvent → Mint → Mint
  minted_update event m = record m {
    status = success;
    mint_transaction_hash = to_lower (ext.hash_hex event.raw.tx_hash);
  }

  unfoldable pub handle_mint_event : Option MintedEvent → Program Bool
  handle_mint_event none = ret false
  handle_mint_event (some event) = ask (update_mint (minted_filter event) (minted_update event))

  abbrev pub resource_id : MintedEvent → Bytes
  resource_id event = bytes "mints/" ++ to_lower (ext.address_hex event.recipient)

  -- The loop over the events, with the last look at the iterator's error.
  unfoldable pub walk : Iterator MintedEvent → Bool → Program Bool
  walk (done err) so_far = ret (if err then false else so_far)
  walk broken so_far = ret false
  walk (item none events) so_far = walk events false
  walk (item (some event) events) so_far =
      let rest = λ (ok : Bool). walk events ok in
      if event.raw.removed then rest so_far else do
        lock_id ← ask (x_lock (resource_id event))
        ok ← under_lock lock_id (handle_mint_event (some event)) so_far
        rest ok

  unfoldable pub walk_filter : Option (Iterator MintedEvent) → Program Bool
  walk_filter none = ret false
  walk_filter (some events) = walk events true

  unfoldable pub sync_blocks : ℕ → ℕ → Program Bool
  sync_blocks start_block_number end_block_number = do
    filter ← ask (filter_minted start_block_number end_block_number)
    walk_filter filter

  unfoldable pub finish : Option Bool → Option (MintExecutorRunner × Bool)
  finish none = none
  finish (some ok) =
      some (if ok then record x { start_block_number = x.current_block_number } else x, ok)

  unfoldable pub sync_txs : Program (Option (MintExecutorRunner × Bool))
  sync_txs = if leb_ℤ x.current_block_number x.start_block_number then ret (some (x, true)) else do
    ok ←
        sync_range sync_blocks x.current_block_number
          (chunk_count x.start_block_number x.current_block_number) x.start_block_number
    ret (finish ok)

abbrev set_current : MintExecutorRunner → Option ℕ → MintExecutorRunner
set_current x none = x
set_current x (some res) = record x { current_block_number = int64_of res }

unfoldable pub update_current_block_number : MintExecutorRunner → Program MintExecutorRunner
update_current_block_number x = do res ← ask get_block_number; ret (set_current x res)

unfoldable pub run_executor :
    External → MintExecutorRunner → Program (Option (MintExecutorRunner × Bool))
run_executor ext x = do x' ← update_current_block_number x; sync_txs ext x'

abbrev last_block_number : ℤ → Option ℤ → ℤ
last_block_number start none = start
last_block_number start (some last) = last

unfoldable pub init_start_block_number : Config → MintExecutorRunner → Bytes → MintExecutorRunner
init_start_block_number cfg x eth_block_number =
    let start = last_block_number cfg.ethereum.start_block_number (parse_int eth_block_number) in
    record x { start_block_number = if ltb_ℤ (pos 0) start then start else x.current_block_number }
