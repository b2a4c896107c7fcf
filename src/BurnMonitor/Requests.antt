-- ===== src/BurnMonitor/Requests.antt =====
-- The requests of SyncTxs of eth/monitor.go.
use wpokt_validator.Base.{
  ℕ, ◌≡◌, refl, Bool, true, false, ◌&&◌, ◌||◌, Option, none, some, arith, leb_ℤ,
}
use wpokt_validator.Models.Config.{Config}
use wpokt_validator.Models.Chain.{BurnEvent, Iterator, done, broken, item}
use wpokt_validator.External.{External}
use wpokt_validator.Effect.{Request, insert_burn, filter_burn_and_bridge}
use wpokt_validator.Effect.Ensures.{Issues, Issues-bind, Ensures-if, Ensures-ask}
use wpokt_validator.Lifecycle.{IsNewBurn}
use wpokt_validator.Lifecycle.Rules.{rules, sync_range-Issues}
use wpokt_validator.BurnMonitor.{
  BurnMonitorRunner, create_burn, handle_burn_event, walk, walk_filter, sync_blocks, sync_txs,
}

module _ (ext : External) (cfg : Config) (x : BurnMonitorRunner) where
  -- The burn stored is that of an event of the chain that is not removed and is above the minimum.
  pub data IsBurnOfEvent : Request → Type 0 where
    stored :
        (event : BurnEvent)
        → event.raw.removed ≡ false
        → leb_ℤ event.amount x.minimum_amount ≡ false
        → IsNewBurn (create_burn ext cfg event)
        → IsBurnOfEvent (insert_burn (create_burn ext cfg event))
    filtered : (i j : ℕ) → IsBurnOfEvent (filter_burn_and_bridge i j)

  create_burn-new : (e : BurnEvent) → IsNewBurn (create_burn ext cfg e)
  unfolding create_burn
  create_burn-new e = record {
    waiting = refl;
    unsigned = refl;
    unsequenced = refl;
    unwritten = refl;
  }

  handle_burn_event-Issues :
      (e : BurnEvent)
      → e.raw.removed ≡ false
      → leb_ℤ e.amount x.minimum_amount ≡ false
      → Issues IsBurnOfEvent (handle_burn_event ext cfg (some e))
  unfolding handle_burn_event
  handle_burn_event-Issues e r m =
      Issues-bind _ _
        (Ensures-ask {P = IsBurnOfEvent} (insert_burn (create_burn ext cfg e))
          (stored e r m (create_burn-new e)))
        (λ _. search rules)

  walk-Issues :
      (it : Iterator BurnEvent) (success : Bool)
      → Issues IsBurnOfEvent (walk ext cfg x.minimum_amount it success)
  unfolding walk
  walk-Issues (done err) success = search rules
  walk-Issues broken success = search rules
  walk-Issues (item none it) success = walk-Issues it false
  walk-Issues (item (some e) it) success =
      Ensures-if (e.raw.removed || leb_ℤ e.amount x.minimum_amount) _ _
        (λ _. walk-Issues it success)
        (λ s.
          Issues-bind _ _ (handle_burn_event-Issues e (ground arith) (ground arith))
            (λ ok. walk-Issues it (ok && success)))

  walk_filter-Issues :
      (o : Option (Iterator BurnEvent))
      → Issues IsBurnOfEvent (walk_filter ext cfg x.minimum_amount o)
  unfolding walk_filter
  walk_filter-Issues none = search rules
  walk_filter-Issues (some it) = walk-Issues it true

  sync_blocks-Issues : (i j : ℕ) → Issues IsBurnOfEvent (sync_blocks ext cfg x.minimum_amount i j)
  unfolding sync_blocks
  sync_blocks-Issues i j = search (rules, walk_filter-Issues, filtered)

  pub burn_monitor-IsBurnOfEvent : Issues IsBurnOfEvent (sync_txs ext cfg x)
  unfolding sync_txs
  burn_monitor-IsBurnOfEvent = search (rules, sync_range-Issues, sync_blocks-Issues)
