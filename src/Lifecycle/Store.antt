-- ===== src/Lifecycle/Store.antt =====
-- The stored documents under the requests of all services, in any order: MongoDB applies an insert
-- or an update to one document at once.
use wpokt_validator.Base.{
  ◌≡◌, ◌≢◌, refl, Bool, true, false, ◌||◌, ◌⊎◌, inl, inr, ap, none, some, length, List, [], ◌∷◌,
  All, arith,
}
use wpokt_validator.Models.{Burn, Mint, MintData, is_signed, is_submitted, is_success}
use wpokt_validator.Effect.{Request, insert_burn, update_burn, insert_mint, update_mint}
use wpokt_validator.Lifecycle.{
  IsLawful, BurnEdge, fails, waits, signs, submits, retries, succeeds, MintEdge, minted,
}

-- The first document that the filter matches is changed.
unfoldable pub update_first : {D : Type 0} → (D → Bool) → (D → D) → List D → List D
update_first f u [] = []
update_first f u (d ∷ docs) =
    let rest = update_first f u docs in elim (f d) [ true ↦ u d ∷ docs | false ↦ d ∷ rest ]

-- What a request does to the burns; an insert may be refused, and a request may fail.
unfoldable pub apply_burns : Request → List Burn → List Burn
apply_burns (insert_burn b) burns = b ∷ burns
apply_burns (update_burn f u) burns = update_first f u burns
apply_burns r burns = burns

unfoldable pub apply_mints : Request → List Mint → List Mint
apply_mints (insert_mint m) mints = m ∷ mints
apply_mints (update_mint f u) mints = update_first f u mints
apply_mints r mints = mints

-- A request is carried out, or it is refused or lost.
pub data BurnsReach : List Request → List Burn → Type 0 where
  empty : BurnsReach [] []
  carried_out :
      {rs : List Request} {bs : List Burn} (r : Request)
      → BurnsReach rs bs
      → BurnsReach (r ∷ rs) (apply_burns r bs)
  refused :
      {rs : List Request} {bs : List Burn} (r : Request) → BurnsReach rs bs → BurnsReach (r ∷ rs) bs

pub data MintsReach : List Request → List Mint → Type 0 where
  empty : MintsReach [] []
  carried_out :
      {rs : List Request} {ms : List Mint} (r : Request)
      → MintsReach rs ms
      → MintsReach (r ∷ rs) (apply_mints r ms)
  refused :
      {rs : List Request} {ms : List Mint} (r : Request) → MintsReach rs ms → MintsReach (r ∷ rs) ms

-- A burn that waits for its submission, was submitted or is a success has a sequence.
pub record IsSequenced (b : Burn) : Type 0 where
  pub sequenced :
      (is_signed b.status || is_submitted b.status || is_success b.status ≡ false)
      ⊎ (b.sequence ≢ none)

-- A signed mint has mint data, of the mint's nonce, and as many signatures as signers.
pub record IsNumbered (m : Mint) : Type 0 where
  pub numbered :
      (is_signed m.status ≡ false)
      ⊎ ((d : MintData) × (m.mint_data ≡ some d)
          × (m.nonce ≡ d.nonce)
          × (length m.signatures ≡ length m.signers))

edge-IsSequenced : (b c : Burn) → BurnEdge b c → IsSequenced b → IsSequenced c
edge-IsSequenced b c (fails o e) h = record { sequenced = ground (arith, h.sequenced) }
edge-IsSequenced b c (waits s k o p e) h = record { sequenced = ground (arith, h.sequenced) }
edge-IsSequenced b c (signs s body sigs n o p e) h = record {
  sequenced = ground (arith, h.sequenced);
}
edge-IsSequenced b c (submits body hash o e) h = record { sequenced = ground (arith, h.sequenced) }
edge-IsSequenced b c (retries o e) h = record { sequenced = ground (arith, h.sequenced) }
edge-IsSequenced b c (succeeds o e) h = record { sequenced = ground (arith, h.sequenced) }

edge-IsNumbered : (m n : Mint) → MintEdge m n → IsNumbered m → IsNumbered n
edge-IsNumbered m n (fails o e) h = record { numbered = inl (ground arith) }
edge-IsNumbered m n (waits s k o p e) h = record { numbered = inl (ground arith) }
edge-IsNumbered m n (signs s k d signers sigs o p l e) h = record {
  numbered = inr (d, ap (λ (z : Mint). z.mint_data) e, ap (λ (z : Mint). z.nonce) e, rw e l);
}
edge-IsNumbered m n (minted hash o e) h = record { numbered = inl (ground arith) }

pub update_first-All :
    {D : Type 0} (P : D → Type 0) (f : D → Bool) (u : D → D)
    → ((d : D) → f d ≡ true → P d → P (u d))
    → (docs : List D) → All P docs
    → All P (update_first f u docs)
unfolding update_first
update_first-All P f u h [] a = tt
update_first-All P f u h (d ∷ docs) a = by_test (f d) refl (update_first-All P f u h docs a.1)
  where
    by_test :
        (b : Bool)
        → f d ≡ b
        → All P (update_first f u docs)
        → All P (elim b [ true ↦ u d ∷ docs | false ↦ d ∷ update_first f u docs ])
    by_test true t rest = (h d t a.0, a.1)
    by_test false t rest = (a.0, rest)

apply_burns-All :
    (r : Request) (bs : List Burn)
    → IsLawful r
    → All IsSequenced bs
    → All IsSequenced (apply_burns r bs)
unfolding apply_burns
apply_burns-All (insert_burn b) bs l a = (record { sequenced = ground (arith, l.waiting) }, a)
apply_burns-All (update_burn f u) bs l a =
    update_first-All IsSequenced f u (λ b t. edge-IsSequenced b (u b) (l b t)) bs a
apply_burns-All r bs l a = a

apply_mints-All :
    (r : Request) (ms : List Mint)
    → IsLawful r
    → All IsNumbered ms
    → All IsNumbered (apply_mints r ms)
unfolding apply_mints
apply_mints-All (insert_mint m) ms l a = (record { numbered = inl (ground (arith, l.waiting)) }, a)
apply_mints-All (update_mint f u) ms l a =
    update_first-All IsNumbered f u (λ m t. edge-IsNumbered m (u m) (l m t)) ms a
apply_mints-All r ms l a = a

-- In whatever order the services' lawful requests reach the database, and whichever of them are
-- refused, every burn that is signed, submitted or a success has a sequence.
pub burns-AreSequenced :
    (rs : List Request) (bs : List Burn) → All IsLawful rs → BurnsReach rs bs → All IsSequenced bs
burns-AreSequenced _ _ l empty = tt
burns-AreSequenced _ _ l (carried_out {rs} {bs} r h) =
    apply_burns-All r bs l.0 (burns-AreSequenced rs bs l.1 h)
burns-AreSequenced _ _ l (refused {rs} {bs} r h) = burns-AreSequenced rs bs l.1 h

-- In whatever order the services' lawful requests reach the database, and whichever of them are
-- refused, every signed mint has mint data, of its own nonce, and as many signatures as signers.
pub mints-AreNumbered :
    (rs : List Request) (ms : List Mint) → All IsLawful rs → MintsReach rs ms → All IsNumbered ms
mints-AreNumbered _ _ l empty = tt
mints-AreNumbered _ _ l (carried_out {rs} {ms} r h) =
    apply_mints-All r ms l.0 (mints-AreNumbered rs ms l.1 h)
mints-AreNumbered _ _ l (refused {rs} {ms} r h) = mints-AreNumbered rs ms l.1 h
