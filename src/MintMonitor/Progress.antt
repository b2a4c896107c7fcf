-- ===== src/MintMonitor/Progress.antt =====
-- The start height of cosmos/monitor.go.
use wpokt_validator.Base.{
  ◌≡◌, ◌↔◌, refl, Bool, true, false, some, List, [], ◌∷◌, arith, All, leb_ℤ, to_word64, ◌&&◌,
  if◌then◌else◌,
}
use wpokt_validator.Models.Config.{Config}
use wpokt_validator.Models.Chain.{TxResponse}
use wpokt_validator.External.{External}
use wpokt_validator.Effect.{get_txs_sent_to_address_after_height}
use wpokt_validator.Effect.Run.{
  Environment, Outcome, returned, run, runs, run-bind-returned, run-bind, run-ret, run-ask,
}
use wpokt_validator.MintMonitor.{MintMonitorRunner, sync_tx, sync_each, sync_found, sync_txs}

module _ (ext : External) (cfg : Config) (x : MintMonitorRunner) (env : Environment) where
  -- The transaction was stored, was stored before, or needs no document.
  abbrev pub IsDealtWith : TxResponse → Type 0
  IsDealtWith tx = run env (sync_tx ext cfg x tx) ≡ returned true

  sync_each_iff :
      (txs : List TxResponse) (success ok : Bool)
      → run env (sync_each ext cfg x txs success) ≡ returned ok
      → (ok ≡ true) ↔ ((success ≡ true) × All IsDealtWith txs)
  unfolding sync_each
  sync_each_iff [] success ok h =
      let e : returned success ≡ returned ok = simp runs at h in ground arith
  sync_each_iff (tx ∷ txs) success ok h =
      let (done, e, k) = run-bind-returned env (sync_tx ext cfg x tx) _ h in
      let rec : (ok ≡ true) ↔ ((done && success ≡ true) × All IsDealtWith txs) =
        sync_each_iff txs (done && success) ok k in
      (
        λ t. let (d, all) = rec.0 t in (ground arith, (ground arith, all)),
        λ p. rec.1 (ground (arith, p.0, p.1.0), p.1.1),
      )

  sync_found_lem :
      (txs : List TxResponse) (x' : MintMonitorRunner) (ok : Bool)
      → run env (sync_found ext cfg x (some txs)) ≡ returned (x', ok)
      → ((ok ≡ true) ↔ All IsDealtWith txs)
        × (x' ≡ (if ok then record x { start_height = x.current_height } else x))
  unfolding sync_found
  sync_found_lem txs x' ok h =
      let (ok', e, k) = run-bind-returned env (sync_each ext cfg x txs true) _ h in
      let k' : ◌≡◌ {A = Outcome (MintMonitorRunner × Bool)}
          (returned (if ok' then record x { start_height = x.current_height } else x, ok'))
          (returned (x', ok)) =
        rw run-ret at k in
      let same : ok' ≡ ok = ground arith in
      let rec : (ok' ≡ true) ↔ ((true ≡ true) × All IsDealtWith txs) =
        sync_each_iff txs true ok' e in
      ((λ t. (rec.0 (ground arith)).1, λ all. ground (arith, rec.1 (refl, all))), ground arith)

  -- Where there are new blocks and their transactions can be listed, a sync that returns reports
  -- success exactly if each of them was dealt with; it then moves the start height to the current
  -- height, and else leaves the monitor as it was, so that the next sync reads them again.
  pub mint_monitor-advances :
      (txs : List TxResponse) (x' : MintMonitorRunner) (ok : Bool)
      → leb_ℤ x.current_height x.start_height ≡ false
      → env (get_txs_sent_to_address_after_height x.vault_address (to_word64 x.start_height))
        ≡ some txs
      → run env (sync_txs ext cfg x) ≡ returned (x', ok)
      → ((ok ≡ true) ↔ All IsDealtWith txs)
        × (x' ≡ (if ok then record x { start_height = x.current_height } else x))
  unfolding sync_txs
  mint_monitor-advances txs x' ok new found h =
      sync_found_lem txs x' ok (rw (new, run-bind, run-ask, found) at h)
