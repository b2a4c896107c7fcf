-- ===== src/Sync.antt =====
-- The loops that several services share: over the documents found, each under its lock, and over
-- a range of blocks, in chunks.
pub mod Chunks
use wpokt_validator.Base.{
  ℕ, zero, suc, ◌+◌, ◌/◌, ℤ, pos, Bool, true, false, ◌&&◌, Option, none, some, List, [], ◌∷◌, ◌-ℤ◌,
  ◌+ℤ◌, pos_part, leb_ℤ, ltb_ℤ, int64, to_word64, if◌then◌else◌,
}
use wpokt_validator.Base.Bytes.{Bytes}
use wpokt_validator.Effect.{x_lock, unlock, Program, ret, ◌>>=◌, ask}

-- One document: the lock, the handler and the unlocking, each of which can clear the success.
unfoldable pub under_lock : Option Bytes → Program Bool → Bool → Program Bool
under_lock none handle success = ret false
under_lock (some lock_id) handle success = do
  ok ← handle
  unlocked ← ask (unlock lock_id)
  ret (if unlocked then ok && success else false)

module _ {D : Type 0} (resource : D → Bytes) (handle : D → Program Bool) where
  -- `for i := range docs { … }`
  unfoldable pub sync_docs : List D → Bool → Program Bool
  sync_docs [] success = ret success
  sync_docs (doc ∷ docs) success = do
    lock_id ← ask (x_lock (resource doc))
    success' ← under_lock lock_id (handle doc) success
    sync_docs docs success'

  -- The documents that `FindMany` finds.
  unfoldable pub sync_found : Option (List D) → Program Bool
  sync_found none = ret false
  sync_found (some docs) = sync_docs docs true

abbrev pub max_query_blocks : ℤ
max_query_blocks = pos 499

module _ (sync_blocks : ℕ → ℕ → Program Bool) (current : ℤ) where
  abbrev pub chunk_end : ℤ → ℤ
  chunk_end i =
      let end = int64 (i +ℤ max_query_blocks) in if ltb_ℤ current end then current else end

  -- `success = success && x.SyncBlocks(i, endBlockNumber)`
  unfoldable pub sync_chunk : ℤ → Bool → Program Bool
  sync_chunk i false = ret false
  sync_chunk i true = sync_blocks (to_word64 i) (to_word64 (chunk_end i))

  -- The loop from `i`; `none` where the fuel runs out.
  unfoldable pub sync_chunks : ℕ → ℤ → Bool → Program (Option Bool)
  sync_chunks zero i success = ret none
  sync_chunks (suc fuel) i success =
      let rest = λ (ok : Bool). sync_chunks fuel (int64 (i +ℤ max_query_blocks)) ok in
      if ltb_ℤ i current then (do ok ← sync_chunk i success; rest ok) else ret (some success)

  abbrev pub as_some : Bool → Option Bool
  as_some b = some b

  -- The blocks from `start` to the current one: in chunks if they are many.
  unfoldable pub sync_range : ℕ → ℤ → Program (Option Bool)
  sync_range fuel start =
      if ltb_ℤ max_query_blocks (int64 (current -ℤ start))
      then sync_chunks fuel start true
      else do ok ← sync_blocks (to_word64 start) (to_word64 current); ret (some ok)

-- Fuel for the chunks between two blocks.
abbrev pub chunk_count : ℤ → ℤ → ℕ
chunk_count start current = pos_part (current -ℤ start) / 499 + 2
