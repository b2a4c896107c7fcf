-- ===== src/Lifecycle/Ledger.antt =====
-- What the stored burns promise, without signatures, sequences and transactions: a ledger of
-- payments, each owed, ready, sent, paid or dropped.
use mathlib.Core.Path.{subst, sym}
use wpokt_validator.Base.{
  Bool, true, ◌||◌, List, [], ◌∷◌, map, All, ◌≡◌, ◌⊎◌, inl, inr, refl, arith, ap, sym, Bool-cases,
}
use wpokt_validator.Base.Bytes.{Bytes}
use wpokt_validator.Models.{
  Status, pending, confirmed, signed, submitted, success, failed, is_open, is_confirmed, is_signed,
  is_submitted, Burn,
}
use wpokt_validator.Effect.{Request, insert_burn, update_burn}
use wpokt_validator.Lifecycle.{IsLawful, BurnEdge, fails, waits, signs, submits, retries, succeeds}
use wpokt_validator.Lifecycle.Store.{
  BurnsReach, empty, carried_out, refused, apply_burns, update_first,
}

pub data Stage : Type 0 where
  owed ready sent paid dropped : Stage

-- The payment that a burn stands for. It never changes.
pub record Payment : Type 0 where
  pub transaction_hash : Bytes
  pub log_index : Bytes
  pub block_number : Bytes
  pub sender_address : Bytes
  pub sender_chain_id : Bytes
  pub recipient_address : Bytes
  pub recipient_chain_id : Bytes
  pub wpokt_address : Bytes
  pub amount : Bytes

pub record Entry : Type 0 where
  pub payment : Payment
  pub stage : Stage

-- What may happen to a payment: a payment that was sent is paid, or owed again, and one that is
-- paid or dropped stays so.
pub data StageStep : Stage → Stage → Type 0 where
  stays : StageStep owed owed
  drops : StageStep owed dropped
  readies : StageStep owed ready
  sends : StageStep ready sent
  owes_again : StageStep sent owed
  pays : StageStep sent paid

-- One entry of the ledger moves on.
pub data Moves : List Entry → List Entry → Type 0 where
  here :
      {s t : Stage} {entries : List Entry} (p : Payment)
      → StageStep s t
      → Moves
          (record { payment = p; stage = s } ∷ entries)
          (record { payment = p; stage = t } ∷ entries)
  there : {xs ys : List Entry} (e : Entry) → Moves xs ys → Moves (e ∷ xs) (e ∷ ys)

-- The ledgers that payments recorded and moved on lead to.
pub data LedgerReach : List Entry → Type 0 where
  nothing : LedgerReach []
  recorded :
      {entries : List Entry} (p : Payment)
      → LedgerReach entries
      → LedgerReach (record { payment = p; stage = owed } ∷ entries)
  moved : {xs ys : List Entry} → LedgerReach xs → Moves xs ys → LedgerReach ys

abbrev pub stage_of : Status → Stage
stage_of pending = owed
stage_of confirmed = owed
stage_of signed = ready
stage_of submitted = sent
stage_of success = paid
stage_of failed = dropped

abbrev pub payment_of : Burn → Payment
payment_of b = record {
  transaction_hash = b.transaction_hash;
  log_index = b.log_index;
  block_number = b.block_number;
  sender_address = b.sender_address;
  sender_chain_id = b.sender_chain_id;
  recipient_address = b.recipient_address;
  recipient_chain_id = b.recipient_chain_id;
  wpokt_address = b.wpokt_address;
  amount = b.amount;
}

abbrev pub entry_of : Burn → Entry
entry_of b = record { payment = payment_of b; stage = stage_of b.status }

stage_of-open : (s : Status) → is_open s ≡ true → stage_of s ≡ owed
stage_of-open s h = ground arith

stage_of-signed : (s : Status) → is_signed s ≡ true → stage_of s ≡ ready
stage_of-signed s h = ground arith

stage_of-submitted : (s : Status) → is_submitted s ≡ true → stage_of s ≡ sent
stage_of-submitted s h = ground arith

stage_of-signing : (s : Status) → is_confirmed s || is_signed s ≡ true → StageStep owed (stage_of s)
stage_of-signing pending h = ground arith
stage_of-signing confirmed h = stays
stage_of-signing signed h = readies
stage_of-signing submitted h = ground arith
stage_of-signing success h = ground arith
stage_of-signing failed h = ground arith

edge-StageStep :
    (b c : Burn)
    → BurnEdge b c
    → (payment_of c ≡ payment_of b) × StageStep (stage_of b.status) (stage_of c.status)
edge-StageStep b c (fails o e) = rw (e, stage_of-open b.status o) (refl, drops)
edge-StageStep b c (waits s k o p e) =
    rw (e, stage_of-open b.status o, stage_of-open s p) (refl, stays)
edge-StageStep b c (signs s body sigs n o p e) =
    rw (e, stage_of-open b.status o) (refl, stage_of-signing s p)
edge-StageStep b c (submits body hash o e) = rw (e, stage_of-signed b.status o) (refl, sends)
edge-StageStep b c (retries o e) = rw (e, stage_of-submitted b.status o) (refl, owes_again)
edge-StageStep b c (succeeds o e) = rw (e, stage_of-submitted b.status o) (refl, pays)

entry-Moves :
    (b c : Burn) (bs : List Burn)
    → (payment_of c ≡ payment_of b) × StageStep (stage_of b.status) (stage_of c.status)
    → Moves (entry_of b ∷ map entry_of bs) (entry_of c ∷ map entry_of bs)
entry-Moves b c bs h =
    subst
      (λ p.
        Moves (entry_of b ∷ map entry_of bs)
          (record { payment = p; stage = stage_of c.status } ∷ map entry_of bs))
      (sym h.0) (here (payment_of b) h.1)

-- A change of one document along an edge moves one entry on, or none.
update_first-Moves :
    (f : Burn → Bool) (u : Burn → Burn)
    → ((b : Burn) → f b ≡ true → BurnEdge b (u b))
    → (bs : List Burn)
    → (map entry_of (update_first f u bs) ≡ map entry_of bs)
      ⊎ Moves (map entry_of bs) (map entry_of (update_first f u bs))
unfolding update_first
update_first-Moves f u h [] = inl refl
update_first-Moves f u h (b ∷ bs) = elim (Bool-cases (f b)) [
  | inl t ↦ rw (update_first, t) (inr (entry-Moves b (u b) bs (edge-StageStep b (u b) (h b t))))
  | inr t ↦
      rw (update_first, t)
        (elim (update_first-Moves f u h bs) [
          | inl same ↦ inl (ap (◌∷◌ (entry_of b)) same)
          | inr moves ↦ inr (there (entry_of b) moves)
        ])
]

apply_burns-LedgerReach :
    (r : Request) (bs : List Burn)
    → IsLawful r
    → LedgerReach (map entry_of bs)
    → LedgerReach (map entry_of (apply_burns r bs))
unfolding apply_burns
apply_burns-LedgerReach (insert_burn b) bs l reach = rw l.waiting (recorded (payment_of b) reach)
apply_burns-LedgerReach (update_burn f u) bs l reach = elim (update_first-Moves f u l bs) [
  | inl same ↦ rw same reach
  | inr moves ↦ moved reach moves
]
apply_burns-LedgerReach r bs l reach = reach

-- The stored burns refine a ledger of payments: in whatever order the services' lawful requests
-- reach the database, and whichever of them are refused, the payments that the burns stand for and
-- their stages are what some steps of the ledger lead to.
pub burns-refine :
    (rs : List Request) (bs : List Burn)
    → All IsLawful rs
    → BurnsReach rs bs
    → LedgerReach (map entry_of bs)
burns-refine _ _ l empty = nothing
burns-refine _ _ l (carried_out {rs} {bs} r h) =
    apply_burns-LedgerReach r bs l.0 (burns-refine rs bs l.1 h)
burns-refine _ _ l (refused {rs} {bs} r h) = burns-refine rs bs l.1 h
