-- ===== src/Lifecycle/Refunds.antt =====
-- The stored invalid mints, which are refunded, under the requests of all services, as the burns in
-- Lifecycle/Store.
use wpokt_validator.Base.{◌≡◌, ◌≢◌, false, ◌||◌, ◌⊎◌, none, List, [], ◌∷◌, All, arith}
use wpokt_validator.Models.{InvalidMint, is_signed, is_submitted, is_success}
use wpokt_validator.Effect.{Request, insert_invalid_mint, update_invalid_mint}
use wpokt_validator.Lifecycle.{
  IsLawful, InvalidMintEdge, fails, waits, signs, submits, retries, succeeds,
}
use wpokt_validator.Lifecycle.Store.{update_first, update_first-All}

unfoldable pub apply_invalid_mints : Request → List InvalidMint → List InvalidMint
apply_invalid_mints (insert_invalid_mint d) docs = d ∷ docs
apply_invalid_mints (update_invalid_mint f u) docs = update_first f u docs
apply_invalid_mints r docs = docs

pub data InvalidMintsReach : List Request → List InvalidMint → Type 0 where
  empty : InvalidMintsReach [] []
  carried_out :
      {rs : List Request} {ds : List InvalidMint} (r : Request)
      → InvalidMintsReach rs ds
      → InvalidMintsReach (r ∷ rs) (apply_invalid_mints r ds)
  refused :
      {rs : List Request} {ds : List InvalidMint} (r : Request)
      → InvalidMintsReach rs ds
      → InvalidMintsReach (r ∷ rs) ds

-- An invalid mint whose refund waits for its submission, was submitted or is a success has a
-- sequence.
pub record IsSequencedRefund (d : InvalidMint) : Type 0 where
  pub sequenced :
      (is_signed d.status || is_submitted d.status || is_success d.status ≡ false)
      ⊎ (d.sequence ≢ none)

edge-IsSequencedRefund :
    (b c : InvalidMint) → InvalidMintEdge b c → IsSequencedRefund b → IsSequencedRefund c
edge-IsSequencedRefund b c (fails o e) h = record { sequenced = ground (arith, h.sequenced) }
edge-IsSequencedRefund b c (waits s k o p e) h = record { sequenced = ground (arith, h.sequenced) }
edge-IsSequencedRefund b c (signs s body sigs n o p e) h = record {
  sequenced = ground (arith, h.sequenced);
}
edge-IsSequencedRefund b c (submits body hash o e) h = record {
  sequenced = ground (arith, h.sequenced);
}
edge-IsSequencedRefund b c (retries o e) h = record { sequenced = ground (arith, h.sequenced) }
edge-IsSequencedRefund b c (succeeds o e) h = record { sequenced = ground (arith, h.sequenced) }

apply_invalid_mints-All :
    (r : Request) (ds : List InvalidMint)
    → IsLawful r
    → All IsSequencedRefund ds
    → All IsSequencedRefund (apply_invalid_mints r ds)
unfolding apply_invalid_mints
apply_invalid_mints-All (insert_invalid_mint d) ds l a =
    (record { sequenced = ground (arith, l.waiting) }, a)
apply_invalid_mints-All (update_invalid_mint f u) ds l a =
    update_first-All IsSequencedRefund f u (λ d t. edge-IsSequencedRefund d (u d) (l d t)) ds a
apply_invalid_mints-All r ds l a = a

-- In whatever order the services' lawful requests reach the database, and whichever of them are
-- refused, every invalid mint that is signed, submitted or a success has a sequence.
pub invalid_mints-AreSequenced :
    (rs : List Request) (ds : List InvalidMint)
    → All IsLawful rs
    → InvalidMintsReach rs ds
    → All IsSequencedRefund ds
invalid_mints-AreSequenced _ _ l empty = tt
invalid_mints-AreSequenced _ _ l (carried_out {rs} {ds} r h) =
    apply_invalid_mints-All r ds l.0 (invalid_mints-AreSequenced rs ds l.1 h)
invalid_mints-AreSequenced _ _ l (refused {rs} {ds} r h) = invalid_mints-AreSequenced rs ds l.1 h
