-- ===== src/Lifecycle.antt =====
-- The lives of the stored documents: what a new one is, and the changes that may be made to one.
pub mod Store
pub mod Services
pub mod Rules
pub mod Ledger
pub mod Refunds
pub mod Actors
use wpokt_validator.Base.{ℕ, Bool, true, ◌||◌, ◌≡◌, ◌⊎◌, Option, none, some, List, [], length}
use wpokt_validator.Base.Bytes.{Bytes}
use wpokt_validator.Models.{
  Status, pending, confirmed, signed, submitted, success, failed, is_open, is_confirmed, is_signed,
  is_submitted, is_success, Signature, Burn, InvalidMint, Mint, MintData,
}
use wpokt_validator.Effect.{
  Request, insert_burn, insert_mint, insert_invalid_mint, update_burn, update_mint,
  update_invalid_mint,
}

-- Burns: open (pending or confirmed), signed, submitted, and then a success or again confirmed,
-- without signatures and sequence; an open one may fail. All other fields stay.
pub data BurnEdge (b c : Burn) : Type 0 where
  fails : is_open b.status ≡ true → c ≡ record b { status = failed } → BurnEdge b c
  waits :
      (s : Status) (k : Bytes)
      → is_open b.status ≡ true
      → is_open s ≡ true
      → c ≡ record b { status = s; confirmations = k }
      → BurnEdge b c
  signs :
      (s : Status) (body : Bytes) (sigs : List Signature) (n : ℕ)
      → is_open b.status ≡ true
      → is_confirmed s || is_signed s ≡ true
      → c ≡ record b {
        status = s;
        return_transaction_body = body;
        signatures = sigs;
        sequence = some n;
      }
      → BurnEdge b c
  submits :
      (body hash : Bytes)
      → is_signed b.status ≡ true
      → c ≡ record b {
        status = submitted;
        return_transaction_body = body;
        return_transaction_hash = hash;
      }
      → BurnEdge b c
  retries :
      is_submitted b.status ≡ true
      → c ≡ record b {
        status = confirmed;
        return_transaction_body = [];
        signatures = [];
        sequence = none;
        return_transaction_hash = [];
      }
      → BurnEdge b c
  succeeds : is_submitted b.status ≡ true → c ≡ record b { status = success } → BurnEdge b c

-- Invalid mints go the way of burns.
pub data InvalidMintEdge (b c : InvalidMint) : Type 0 where
  fails : is_open b.status ≡ true → c ≡ record b { status = failed } → InvalidMintEdge b c
  waits :
      (s : Status) (k : Bytes)
      → is_open b.status ≡ true
      → is_open s ≡ true
      → c ≡ record b { status = s; confirmations = k }
      → InvalidMintEdge b c
  signs :
      (s : Status) (body : Bytes) (sigs : List Signature) (n : ℕ)
      → is_open b.status ≡ true
      → is_confirmed s || is_signed s ≡ true
      → c ≡ record b {
        status = s;
        return_transaction_body = body;
        signatures = sigs;
        sequence = some n;
      }
      → InvalidMintEdge b c
  submits :
      (body hash : Bytes)
      → is_signed b.status ≡ true
      → c ≡ record b {
        status = submitted;
        return_transaction_body = body;
        return_transaction_hash = hash;
      }
      → InvalidMintEdge b c
  retries :
      is_submitted b.status ≡ true
      → c ≡ record b {
        status = confirmed;
        return_transaction_body = [];
        signatures = [];
        sequence = none;
        return_transaction_hash = [];
      }
      → InvalidMintEdge b c
  succeeds : is_submitted b.status ≡ true → c ≡ record b { status = success } → InvalidMintEdge b c

-- Mints: open, signed, and a success once the event is seen, which may come before the mint is
-- stored as signed.
pub data MintEdge (m n : Mint) : Type 0 where
  fails : is_open m.status ≡ true → n ≡ record m { status = failed } → MintEdge m n
  waits :
      (s : Status) (k : Bytes)
      → is_open m.status ≡ true
      → is_open s ≡ true
      → n ≡ record m { status = s; confirmations = k }
      → MintEdge m n
  signs :
      (s : Status) (k : Bytes) (minted : MintData) (signers sigs : List Bytes)
      → is_open m.status ≡ true
      → is_confirmed s || is_signed s ≡ true
      → length sigs ≡ length signers
      → n ≡ record m {
        status = s;
        confirmations = k;
        nonce = minted.nonce;
        mint_data = some minted;
        signers = signers;
        signatures = sigs;
      }
      → MintEdge m n
  minted :
      (hash : Bytes)
      → is_confirmed m.status || is_signed m.status || is_success m.status ≡ true
      → n ≡ record m { status = success; mint_transaction_hash = hash }
      → MintEdge m n

-- A new document has no signature and, of its kind, no sequence or nonce.
pub record IsNewBurn (b : Burn) : Type 0 where
  pub waiting : b.status ≡ pending
  pub unsigned : b.signatures ≡ []
  pub unsequenced : b.sequence ≡ none
  pub unwritten : b.return_transaction_body ≡ []

pub record IsNewInvalidMint (d : InvalidMint) : Type 0 where
  pub waiting : (d.status ≡ pending) ⊎ (d.status ≡ failed)
  pub unsigned : d.signatures ≡ []
  pub unsequenced : d.sequence ≡ none
  pub unwritten : d.return_transaction_body ≡ []

pub record IsNewMint (m : Mint) : Type 0 where
  pub waiting : m.status ≡ pending
  pub unsigned : m.signatures ≡ []
  pub unnumbered : m.mint_data ≡ none

-- A request that stores only new documents, and changes those that its filter matches only along
-- an edge.
abbrev pub IsLawful : Request → Type 0
IsLawful (insert_burn b) = IsNewBurn b
IsLawful (insert_mint m) = IsNewMint m
IsLawful (insert_invalid_mint d) = IsNewInvalidMint d
IsLawful (update_burn f u) = (b : Burn) → f b ≡ true → BurnEdge b (u b)
IsLawful (update_mint f u) = (m : Mint) → f m ≡ true → MintEdge m (u m)
IsLawful (update_invalid_mint f u) = (d : InvalidMint) → f d ≡ true → InvalidMintEdge d (u d)
IsLawful r = Unit
