-- ===== src/BurnMonitor/Coverage.antt =====
-- The blocks that SyncTxs of eth/monitor.go reads.
use wpokt_validator.Base.{
  ℕ, ◌+◌, ◌^◌, ◌<◌, ◌≤◌, pos, ◌≡◌, ◌≢◌, Bool, true, false, Option, none, some, arith, leb_ℤ,
  if◌then◌else◌,
}
use wpokt_validator.Models.Config.{Config}
use wpokt_validator.External.{External}
use wpokt_validator.Effect.Run.{
  Environment, returned, run, run-ret, run-bind-returned, returned-inj,
}
use wpokt_validator.Sync.Chunks.{IsRead, range-returns, range-covers}
use wpokt_validator.BurnMonitor.{BurnMonitorRunner, sync_blocks, finish, sync_txs}

module _ (ext : External) (cfg : Config) (x : BurnMonitorRunner) (env : Environment)
    (start current : ℕ) where
  finish-returned :
      (o : Option Bool) (x' : BurnMonitorRunner) (ok : Bool)
      → finish ext cfg x o ≡ some (x', ok)
      → (o ≡ some ok)
        × (x' ≡ (if ok then record x { start_block_number = x.current_block_number } else x))
  unfolding finish
  finish-returned none x' ok h = ground arith
  finish-returned (some done) x' ok h = (ground arith, ground arith)

  finish-some : (o : Option Bool) → o ≢ none → finish ext cfg x o ≢ none
  unfolding finish
  finish-some none h = ground (arith, h)
  finish-some (some done) h = ground arith

  is_new :
      x.start_block_number ≡ pos start
      → x.current_block_number ≡ pos current
      → start < current
      → leb_ℤ x.current_block_number x.start_block_number ≡ false
  is_new s c l = rw (s, c) (ground arith)

  -- Where there are new blocks, and their numbers are far from the last of an int64, a sync of the
  -- burn monitor that returns has reached its end: the fuel of the model is enough.
  pub burn_monitor-ends :
      (o : Option (BurnMonitorRunner × Bool))
      → x.start_block_number ≡ pos start
      → x.current_block_number ≡ pos current
      → start < current
      → current + 499 < 2 ^ 63
      → run env (sync_txs ext cfg x) ≡ returned o
      → o ≢ none
  unfolding sync_txs
  burn_monitor-ends o s c l small h =
      let (r, e, k) = run-bind-returned env _ _ (rw (is_new s c l) at h) in
      let f : finish ext cfg x r ≡ o = returned-inj (rw run-ret at k) in
      rw (← f) (
        finish-some r (
          range-returns env (sync_blocks ext cfg x.minimum_amount) x.start_block_number
            x.current_block_number start current s c l small r e))

  -- Where there are new blocks, and their numbers are far from the last of an int64, a sync of the
  -- burn monitor that reports success moves the start block to the current one, and it has read each
  -- block from the old start to the current one with success.
  pub burn_monitor-covers :
      (x' : BurnMonitorRunner) (block : ℕ)
      → x.start_block_number ≡ pos start
      → x.current_block_number ≡ pos current
      → start < current
      → current + 499 < 2 ^ 63
      → start ≤ block
      → block ≤ current
      → run env (sync_txs ext cfg x) ≡ returned (some (x', true))
      → (x' ≡ record x { start_block_number = x.current_block_number })
        × IsRead env (sync_blocks ext cfg x.minimum_amount) block
  unfolding sync_txs
  burn_monitor-covers x' block s c l small from to h =
      let (r, e, k) = run-bind-returned env _ _ (rw (is_new s c l) at h) in
      let (ok, moved) = finish-returned r x' true (returned-inj (rw run-ret at k)) in
      (
        moved,
        range-covers env (sync_blocks ext cfg x.minimum_amount) x.start_block_number
            x.current_block_number start current s c l small block from to (rw ok at e),
      )
