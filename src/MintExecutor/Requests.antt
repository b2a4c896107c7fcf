-- ===== src/MintExecutor/Requests.antt =====
-- The requests of SyncTxs of eth/executor.go.
use wpokt_validator.Base.{ℕ, ◌≡◌, refl, Bool, true, Option, none, some, arith, false}
use wpokt_validator.Base.Bytes.{eqb→eq}
use wpokt_validator.Models.{Mint}
use wpokt_validator.Models.Chain.{MintedEvent, Iterator, done, broken, item}
use wpokt_validator.External.{External}
use wpokt_validator.Effect.{update_mint}
use wpokt_validator.Effect.Ensures.{Issues, Ensures-ask, Issues-bind, Ensures-if}
use wpokt_validator.Lifecycle.Actors.{IsMintOfEvent, IsMintExecutorRequest}
use wpokt_validator.Lifecycle.Rules.{rules, under_lock-Issues, sync_range-Issues}
use wpokt_validator.MintExecutor.{
  MintExecutorRunner, minted_filter, minted_update, handle_mint_event, walk, walk_filter,
  sync_blocks, sync_txs,
}

module _ (ext : External) (x : MintExecutorRunner) where
  minted-IsMintOfEvent :
      (e : MintedEvent) (m : Mint)
      → minted_filter ext x e m ≡ true
      → IsMintOfEvent ext e m (minted_update ext x e m)
  unfolding minted_filter minted_update
  minted-IsMintOfEvent e m h = record {
    recipient = eqb→eq _ _ (ground arith);
    amount = eqb→eq _ _ (ground arith);
    nonce = eqb→eq _ _ (ground arith);
    status = ground arith;
    marked = refl;
  }

  handle_mint_event-Issues :
      (e : MintedEvent)
      → e.raw.removed ≡ false
      → Issues (IsMintExecutorRequest ext) (handle_mint_event ext x (some e))
  unfolding handle_mint_event
  handle_mint_event-Issues e r =
      Ensures-ask (update_mint (minted_filter ext x e) (minted_update ext x e))
        (e, r, minted-IsMintOfEvent e)

  walk-Issues :
      (it : Iterator MintedEvent) (so_far : Bool)
      → Issues (IsMintExecutorRequest ext) (walk ext x it so_far)
  unfolding walk
  walk-Issues (done err) so_far = search rules
  walk-Issues broken so_far = search rules
  walk-Issues (item none it) so_far = walk-Issues it false
  walk-Issues (item (some e) it) so_far =
      Ensures-if e.raw.removed _ _ (λ _. walk-Issues it so_far)
        (λ kept. Issues-bind _ _ (search rules) (λ lock.
          Issues-bind _ _
            (under_lock-Issues (λ _. tt) (λ _. tt) lock _ so_far (handle_mint_event-Issues e kept))
            (λ ok. walk-Issues it ok)))

  walk_filter-Issues :
      (o : Option (Iterator MintedEvent)) → Issues (IsMintExecutorRequest ext) (walk_filter ext x o)
  unfolding walk_filter
  walk_filter-Issues none = search rules
  walk_filter-Issues (some it) = walk-Issues it true

  sync_blocks-Issues : (i j : ℕ) → Issues (IsMintExecutorRequest ext) (sync_blocks ext x i j)
  unfolding sync_blocks
  sync_blocks-Issues i j = search (rules, walk_filter-Issues)

  pub mint_executor-IsMintExecutorRequest : Issues (IsMintExecutorRequest ext) (sync_txs ext x)
  unfolding sync_txs
  mint_executor-IsMintExecutorRequest = search (rules, sync_range-Issues, sync_blocks-Issues)
