-- ===== src/Lifecycle/Rules.antt =====
-- Lawful programs: the loops over documents, and the rules by which `search` goes through a
-- service.
use wpokt_validator.Base.{
  ℕ, zero, suc, ◌≡◌, Bool, true, false, Option, none, some, List, [], ◌∷◌, All, ℤ, suc,
}
use wpokt_validator.Base.Bytes.{Bytes}
use wpokt_validator.Models.{Burn, Mint, InvalidMint}
use wpokt_validator.Effect.{
  Request, Program, x_lock, unlock, require, ask, update_burn, update_mint, find_mints,
  update_invalid_mint, find_invalid_mints, find_burns, ◌>>=◌, ◌>>◌, ret,
}
use wpokt_validator.Effect.Ensures.{
  Ensures, Issues, Ensures-ret, Ensures-fail, Ensures-panic, Ensures-ask, Ensures-lift,
  Ensures-require, Issues-bind, Ensures-bind, Ensures-if, Issues-settle, Ensures-defer,
  Ensures-weaken, AllMatch, Ensures-ask-Matching,
}
use wpokt_validator.Sync.{under_lock, sync_docs, sync_found, sync_chunk, sync_chunks, sync_range}

pub Issues-require : {P : Request → Type 0} (b : Bool) → Issues P (require b)
Issues-require b = Ensures-weaken (require b) (Ensures-require b)

pub ruleset rules = (
  Ensures-ret, Ensures-fail, Ensures-panic, Ensures-ask, Ensures-lift, Issues-require, Issues-bind,
  Ensures-if, Issues-settle, Ensures-defer,
)

module _ {P : Request → Type 0} (locks : (resource : Bytes) → P (x_lock resource))
    (unlocks : (lock_id : Bytes) → P (unlock lock_id)) where
  pub under_lock-Issues :
      (lock : Option Bytes) (m : Program Bool) (success : Bool)
      → Issues P m
      → Issues P (under_lock lock m success)
  unfolding under_lock
  under_lock-Issues none m success h = search rules
  under_lock-Issues (some l) m success h = search rules depth 8

  module _ {D : Type 0} (resource : D → Bytes) (handle : D → Program Bool) (Ok : D → Type 0)
      (handled : (d : D) → Ok d → Issues P (handle d)) where
    sync_docs-Issues :
        (docs : List D) (success : Bool)
        → All Ok docs
        → Issues P (sync_docs resource handle docs success)
    unfolding sync_docs
    sync_docs-Issues [] success h = search rules
    sync_docs-Issues (d ∷ docs) success h =
        Issues-bind _ _ (Ensures-ask (x_lock (resource d)) (locks _)) (λ lock.
          Issues-bind _ _ (under_lock-Issues lock (handle d) success (handled d h.0))
            (λ ok. sync_docs-Issues docs ok h.1))

  -- The documents that a search finds match its filter, which the handler may rely on.
  pub sync_found-Issues :
      {D : Type 0} (resource : D → Bytes) (handle : D → Program Bool) (f : D → Bool)
      → ((d : D) → f d ≡ true → Issues P (handle d))
      → (o : Option (List D)) → AllMatch f o
      → Issues P (sync_found resource handle o)
  unfolding sync_found
  sync_found-Issues resource handle f h none m = search rules
  sync_found-Issues resource handle f h (some docs) m =
      sync_docs-Issues resource handle (λ d. f d ≡ true) h docs true m

-- The documents of a search, each handled under its lock; and a change of a document.
module _ {P : Request → Type 0} where
  pub search_burns-Issues :
      (locks : (resource : Bytes) → P (x_lock resource))
      (unlocks : (lock_id : Bytes) → P (unlock lock_id)) (f : Burn → Bool) (resource : Burn → Bytes)
      (handle : Burn → Program Bool)
      → P (find_burns f)
      → ((b : Burn) → f b ≡ true → Issues P (handle b))
      → Issues P (ask (find_burns f) >>= sync_found resource handle)
  search_burns-Issues locks unlocks f resource handle finds h =
      Ensures-bind (ask (find_burns f)) _ (Ensures-ask-Matching (find_burns f) finds)
        (λ o m. sync_found-Issues locks unlocks resource handle f h o m)

  pub search_mints-Issues :
      (locks : (resource : Bytes) → P (x_lock resource))
      (unlocks : (lock_id : Bytes) → P (unlock lock_id)) (f : Mint → Bool) (resource : Mint → Bytes)
      (handle : Mint → Program Bool)
      → P (find_mints f)
      → ((m : Mint) → f m ≡ true → Issues P (handle m))
      → Issues P (ask (find_mints f) >>= sync_found resource handle)
  search_mints-Issues locks unlocks f resource handle finds h =
      Ensures-bind (ask (find_mints f)) _ (Ensures-ask-Matching (find_mints f) finds)
        (λ o m. sync_found-Issues locks unlocks resource handle f h o m)

  pub search_invalid_mints-Issues :
      (locks : (resource : Bytes) → P (x_lock resource))
      (unlocks : (lock_id : Bytes) → P (unlock lock_id)) (f : InvalidMint → Bool)
      (resource : InvalidMint → Bytes) (handle : InvalidMint → Program Bool)
      → P (find_invalid_mints f)
      → ((d : InvalidMint) → f d ≡ true → Issues P (handle d))
      → Issues P (ask (find_invalid_mints f) >>= sync_found resource handle)
  search_invalid_mints-Issues locks unlocks f resource handle finds h =
      Ensures-bind (ask (find_invalid_mints f)) _
        (Ensures-ask-Matching (find_invalid_mints f) finds)
        (λ o m. sync_found-Issues locks unlocks resource handle f h o m)

  pub change_burn-Issues :
      (f : Burn → Bool) (u : Burn → Burn)
      → P (update_burn f u)
      → Issues P (ask (update_burn f u) >>= λ updated. require updated >> ret true)
  change_burn-Issues f u h =
      Issues-bind (ask (update_burn f u)) _ (Ensures-ask (update_burn f u) h) (λ _. search rules)

  pub change_mint-Issues :
      (f : Mint → Bool) (u : Mint → Mint)
      → P (update_mint f u)
      → Issues P (ask (update_mint f u) >>= λ updated. require updated >> ret true)
  change_mint-Issues f u h =
      Issues-bind (ask (update_mint f u)) _ (Ensures-ask (update_mint f u) h) (λ _. search rules)

  pub change_invalid_mint-Issues :
      (f : InvalidMint → Bool) (u : InvalidMint → InvalidMint)
      → P (update_invalid_mint f u)
      → Issues P (ask (update_invalid_mint f u) >>= λ updated. require updated >> ret true)
  change_invalid_mint-Issues f u h =
      Issues-bind (ask (update_invalid_mint f u)) _ (Ensures-ask (update_invalid_mint f u) h)
        (λ _. search rules)

-- A range of blocks asks for what its chunks ask for.
module _ {P : Request → Type 0} (blocks : ℕ → ℕ → Program Bool)
    (issues : (i j : ℕ) → Issues P (blocks i j)) (current : ℤ) where
  sync_chunk-Issues : (i : ℤ) (success : Bool) → Issues P (sync_chunk blocks current i success)
  unfolding sync_chunk
  sync_chunk-Issues i false = search rules
  sync_chunk-Issues i true = issues _ _

  sync_chunks-Issues :
      (fuel : ℕ) (i : ℤ) (success : Bool) → Issues P (sync_chunks blocks current fuel i success)
  unfolding sync_chunks
  sync_chunks-Issues zero i success = search rules
  sync_chunks-Issues (suc fuel) i success =
      let rest : (j : ℤ) (ok : Bool) → Issues P (sync_chunks blocks current fuel j ok) =
        (λ j ok. sync_chunks-Issues fuel j ok) in
      search (rules, sync_chunk-Issues)

  pub sync_range-Issues : (fuel : ℕ) (start : ℤ) → Issues P (sync_range blocks current fuel start)
  unfolding sync_range
  sync_range-Issues fuel start = search (rules, sync_chunks-Issues, issues) depth 7
