-- ===== src/Examples/Monitors.antt =====
-- The monitors and the mint executor in the small world, and the requests of all services.
use wpokt_validator.Base.{
  ℕ, ℤ, pos, ◌≡◌, ◌≢◌, ◌↔◌, ◌≤◌, refl, Bool, true, false, Option, none, some, List, [], ◌∷◌, All,
  if◌then◌else◌, arith,
}
use wpokt_validator.Base.Bytes.{Bytes, bytes}
use wpokt_validator.Models.{Mint}
use wpokt_validator.Effect.{
  Request, insert_burn, insert_mint, find_burns, find_mints, find_invalid_mints,
  insert_invalid_mint,
}
use wpokt_validator.Effect.Run.{run, trace}
use wpokt_validator.Effect.Ensures.{Issues, Matching}
use wpokt_validator.Effect.Traces.{IsMatching}
use wpokt_validator.Sync.Chunks.{IsRead}
use wpokt_validator.ValidateTx.{ValidateTxResult}
use wpokt_validator.Lifecycle.Refunds.{InvalidMintsReach, IsSequencedRefund}
use wpokt_validator.Lifecycle.Ledger.{LedgerReach, entry_of}
use wpokt_validator.Lifecycle.Store.{
  BurnsReach, MintsReach, IsSequenced, IsNumbered, carried_out, empty,
}
use wpokt_validator.Lifecycle.Services.{
  IsServiceRequest, made, burn_monitor, mint_monitor, services-AreSequenced, services-AreNumbered,
  services-refine, services-AreSequencedRefunds,
}
use wpokt_validator.MintMonitor
use wpokt_validator.MintMonitor.{MintMonitorRunner}
use wpokt_validator.MintMonitor.Documents.{create_mint, create_invalid_mint}
use wpokt_validator.MintMonitor.Requests.{IsWarranted, mint_monitor-IsWarranted}
use wpokt_validator.MintMonitor.Progress.{IsDealtWith, mint_monitor-advances}
use wpokt_validator.BurnMonitor
use wpokt_validator.BurnMonitor.{BurnMonitorRunner, create_burn}
use wpokt_validator.BurnMonitor.Coverage.{burn_monitor-ends, burn_monitor-covers}
use wpokt_validator.MintExecutor
use wpokt_validator.MintExecutor.{MintExecutorRunner}
use wpokt_validator.Examples.{ext, sdk, cfg, env, payment, payee, burn_event, InvalidMint, Config}
use mathlib.Core.List.{Memᴰ}

abbrev mint_monitor_runner : MintMonitorRunner
mint_monitor_runner = record {
  wpokt_address = bytes "0xaa";
  vault_address = bytes "pokt1vault0000000000";
  start_height = pos 1;
  current_height = pos 3;
  minimum_amount = pos 10;
  maximum_amount = pos 9000;
}

abbrev burn_monitor_runner : BurnMonitorRunner
burn_monitor_runner = record {
  start_block_number = pos 1;
  current_block_number = pos 3;
  minimum_amount = pos 10;
}

abbrev mint_executor_runner : MintExecutorRunner
mint_executor_runner = record {
  start_block_number = pos 1;
  current_block_number = pos 3;
  vault_address = bytes "pokt1vault0000000000";
  wpokt_address = bytes "0xaa";
}

mint_monitor-IsWarranted_example :
    Issues
      (IsWarranted ext cfg mint_monitor_runner)
      (MintMonitor.sync_txs ext cfg mint_monitor_runner)
mint_monitor-IsWarranted_example = mint_monitor-IsWarranted ext cfg mint_monitor_runner

mint_monitor-advances_example :
    ((true ≡ true) ↔ All (IsDealtWith ext cfg mint_monitor_runner env) (payment ∷ []))
    × (record mint_monitor_runner { start_height = pos 3 } ≡ (
        if true then record mint_monitor_runner { start_height = pos 3 } else mint_monitor_runner))
unfolding MintMonitor.sync_txs run wpokt_validator.Effect.◌>>=◌ wpokt_validator.Effect.ask
    MintMonitor.sync_found MintMonitor.sync_each MintMonitor.sync_tx
    wpokt_validator.ValidateTx.validate_tx_to_cosmos_multisig
    wpokt_validator.Events.parse_transfer_events wpokt_validator.Events.read_event
    wpokt_validator.Base.Bytes.equal_fold wpokt_validator.Events.find_attribute_value
    wpokt_validator.Memo.validate_memo wpokt_validator.Common.is_valid_ethereum_address
    wpokt_validator.Memo.trim wpokt_validator.Base.Bytes.trim_0x MintMonitor.handle_valid_mint
mint_monitor-advances_example =
    mint_monitor-advances ext cfg mint_monitor_runner env (payment ∷ [])
      (record mint_monitor_runner { start_height = pos 3 }) true refl refl refl

abbrev burn_monitor_result : Option (BurnMonitorRunner × Bool)
burn_monitor_result = some (record burn_monitor_runner { start_block_number = pos 3 }, true)

burn_monitor-ends_example : burn_monitor_result ≢ none
unfolding BurnMonitor.sync_txs run wpokt_validator.Effect.◌>>=◌ wpokt_validator.Sync.sync_range
    wpokt_validator.Base.int64 BurnMonitor.sync_blocks wpokt_validator.Effect.ask
    BurnMonitor.walk_filter BurnMonitor.walk BurnMonitor.handle_burn_event BurnMonitor.finish
burn_monitor-ends_example =
    burn_monitor-ends ext cfg burn_monitor_runner env 1 3 burn_monitor_result refl refl
      (omega arith) (omega arith) refl

burn_monitor-covers_example :
    (record burn_monitor_runner { start_block_number = pos 3 }
      ≡ record burn_monitor_runner { start_block_number = pos 3 })
    × IsRead env (BurnMonitor.sync_blocks ext cfg (pos 10)) 2
unfolding BurnMonitor.sync_txs run wpokt_validator.Effect.◌>>=◌ wpokt_validator.Sync.sync_range
    wpokt_validator.Base.int64 BurnMonitor.sync_blocks wpokt_validator.Effect.ask
    BurnMonitor.walk_filter BurnMonitor.walk BurnMonitor.handle_burn_event BurnMonitor.finish
burn_monitor-covers_example =
    burn_monitor-covers ext cfg burn_monitor_runner env 1 3
      (record burn_monitor_runner { start_block_number = pos 3 }) 2 refl refl (omega arith)
      (omega arith) (omega arith) (omega arith) refl

abbrev mint_executor_result : Option (MintExecutorRunner × Bool)
mint_executor_result = some (record mint_executor_runner { start_block_number = pos 3 }, true)

matches : (r : Request) → Matching r (env r)
matches (find_burns f) = tt
matches (find_mints f) = tt
matches (find_invalid_mints f) = tt
matches r = tt

pub env-IsMatching : IsMatching env
env-IsMatching = record { matching = matches }

abbrev stored_burn : Request
stored_burn = insert_burn (create_burn ext cfg burn_event)

stored_burn-IsServiceRequest : IsServiceRequest ext sdk stored_burn
unfolding BurnMonitor.sync_txs trace wpokt_validator.Effect.◌>>=◌ wpokt_validator.Sync.sync_range
    wpokt_validator.Base.int64 BurnMonitor.sync_blocks wpokt_validator.Effect.ask
    BurnMonitor.walk_filter BurnMonitor.walk BurnMonitor.handle_burn_event
stored_burn-IsServiceRequest =
    made env (burn_monitor cfg burn_monitor_runner) env-IsMatching (Memᴰ.tail (Memᴰ.head refl))

services-AreSequenced_example : All IsSequenced (create_burn ext cfg burn_event ∷ [])
unfolding wpokt_validator.Lifecycle.Store.apply_burns
services-AreSequenced_example =
    services-AreSequenced ext sdk (stored_burn ∷ []) (create_burn ext cfg burn_event ∷ [])
      (stored_burn-IsServiceRequest, tt) (carried_out stored_burn empty)

services-refine_example : LedgerReach (entry_of (create_burn ext cfg burn_event) ∷ [])
unfolding wpokt_validator.Lifecycle.Store.apply_burns
services-refine_example =
    services-refine ext sdk (stored_burn ∷ []) (create_burn ext cfg burn_event ∷ [])
      (stored_burn-IsServiceRequest, tt) (carried_out stored_burn empty)

abbrev judged : ValidateTxResult
judged = record {
  tx_valid = true;
  tx = some (record { body_memo = some (bytes "memo") });
  tx_hash = bytes "0xff";
  memo = record { address = payee; chain_id = bytes "1" };
  amount = some (record { denom = bytes "upokt"; amount = pos 5000 });
  sender_address = bytes "pokt1sender";
  needs_refund = false;
}

abbrev new_mint : Mint
new_mint = create_mint ext cfg payment judged (bytes "0xaa") (bytes "pokt1vault0000000000")

abbrev stored_mint : Request
stored_mint = insert_mint new_mint

stored_mint-IsServiceRequest : IsServiceRequest ext sdk stored_mint
unfolding MintMonitor.sync_txs trace wpokt_validator.Effect.◌>>=◌ wpokt_validator.Effect.ask
    MintMonitor.sync_found MintMonitor.sync_each MintMonitor.sync_tx
    wpokt_validator.ValidateTx.validate_tx_to_cosmos_multisig
    wpokt_validator.Events.parse_transfer_events wpokt_validator.Events.read_event
    wpokt_validator.Base.Bytes.equal_fold wpokt_validator.Events.find_attribute_value
    wpokt_validator.Memo.validate_memo wpokt_validator.Common.is_valid_ethereum_address
    wpokt_validator.Memo.trim wpokt_validator.Base.Bytes.trim_0x MintMonitor.handle_valid_mint
    create_mint wpokt_validator.Base.Bytes.eqb wpokt_validator.Base.Bytes.has_0x
    wpokt_validator.Base.Bytes.to_lower wpokt_validator.Common.bytes_from_hex
    wpokt_validator.Common.ensure_0x_prefix wpokt_validator.MintMonitor.dispatch
stored_mint-IsServiceRequest =
    made env (mint_monitor cfg mint_monitor_runner) env-IsMatching
      (Memᴰ.tail (Memᴰ.tail (Memᴰ.head refl)))

services-AreNumbered_example : All IsNumbered (new_mint ∷ [])
unfolding wpokt_validator.Lifecycle.Store.apply_mints
services-AreNumbered_example =
    services-AreNumbered ext sdk (stored_mint ∷ []) (new_mint ∷ [])
      (stored_mint-IsServiceRequest, tt) (carried_out stored_mint empty)

abbrev disabled : Config
disabled = record cfg { pocket = record cfg.pocket { mint_disabled = true } }

abbrev new_refund : InvalidMint
new_refund = create_invalid_mint ext disabled payment judged (bytes "pokt1vault0000000000")

abbrev stored_refund : Request
stored_refund = insert_invalid_mint new_refund

stored_refund-IsServiceRequest : IsServiceRequest ext sdk stored_refund
unfolding MintMonitor.sync_txs trace wpokt_validator.Effect.◌>>=◌ wpokt_validator.Effect.ask
    MintMonitor.sync_found MintMonitor.sync_each MintMonitor.sync_tx
    wpokt_validator.ValidateTx.validate_tx_to_cosmos_multisig
    wpokt_validator.Events.parse_transfer_events wpokt_validator.Events.read_event
    wpokt_validator.Base.Bytes.equal_fold wpokt_validator.Events.find_attribute_value
    wpokt_validator.Memo.validate_memo wpokt_validator.Common.is_valid_ethereum_address
    wpokt_validator.Memo.trim wpokt_validator.Base.Bytes.trim_0x MintMonitor.handle_invalid_mint
    create_invalid_mint wpokt_validator.Base.Bytes.eqb wpokt_validator.Base.Bytes.has_0x
    wpokt_validator.Base.Bytes.to_lower wpokt_validator.Common.bytes_from_hex
    wpokt_validator.Common.ensure_0x_prefix wpokt_validator.MintMonitor.dispatch
stored_refund-IsServiceRequest =
    made env (mint_monitor disabled mint_monitor_runner) env-IsMatching
      (Memᴰ.tail (Memᴰ.tail (Memᴰ.head refl)))

services-AreSequencedRefunds_example : All IsSequencedRefund (new_refund ∷ [])
unfolding wpokt_validator.Lifecycle.Refunds.apply_invalid_mints
services-AreSequencedRefunds_example =
    services-AreSequencedRefunds ext sdk (stored_refund ∷ []) (new_refund ∷ [])
      (stored_refund-IsServiceRequest, tt)
      (InvalidMintsReach.carried_out stored_refund InvalidMintsReach.empty)
