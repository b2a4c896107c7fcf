-- ===== src/Lifecycle/Actors.antt =====
-- The part of the documents' lives that is up to each of the four services which update them.
use wpokt_validator.Base.{◌≡◌, true, false, ◌||◌}
use wpokt_validator.Base.Bytes.{to_lower}
use wpokt_validator.Base.Decimal.{format_int}
use wpokt_validator.Models.{Burn, InvalidMint, Mint, success, is_confirmed, is_signed, is_success}
use wpokt_validator.Models.Chain.{MintedEvent}
use wpokt_validator.External.{External}
use wpokt_validator.Effect.{
  Request, insert_burn, insert_mint, insert_invalid_mint, update_burn, update_mint,
  update_invalid_mint,
}
use wpokt_validator.Lifecycle.{
  IsLawful, BurnEdge, InvalidMintEdge, MintEdge, fails, waits, signs, submits, retries, succeeds,
  minted,
}

-- A document fails, waits or is signed.
abbrev pub IsBurnSigning : {b c : Burn} → BurnEdge b c → Type 0
IsBurnSigning (fails o e) = Unit
IsBurnSigning (waits s k o a e) = Unit
IsBurnSigning (signs s body sigs n o a e) = Unit
IsBurnSigning (submits body hash o e) = ⊥
IsBurnSigning (retries o e) = ⊥
IsBurnSigning (succeeds o e) = ⊥

abbrev pub IsRefundSigning : {b c : InvalidMint} → InvalidMintEdge b c → Type 0
IsRefundSigning (fails o e) = Unit
IsRefundSigning (waits s k o a e) = Unit
IsRefundSigning (signs s body sigs n o a e) = Unit
IsRefundSigning (submits body hash o e) = ⊥
IsRefundSigning (retries o e) = ⊥
IsRefundSigning (succeeds o e) = ⊥

abbrev pub IsMintSigning : {b c : Mint} → MintEdge b c → Type 0
IsMintSigning (fails o e) = Unit
IsMintSigning (waits s k o a e) = Unit
IsMintSigning (signs s k d signers sigs o a l e) = Unit
IsMintSigning (minted hash o e) = ⊥

-- A document is submitted, retried or a success.
abbrev pub IsBurnSending : {b c : Burn} → BurnEdge b c → Type 0
IsBurnSending (submits body hash o e) = Unit
IsBurnSending (retries o e) = Unit
IsBurnSending (succeeds o e) = Unit
IsBurnSending (fails o e) = ⊥
IsBurnSending (waits s k o a e) = ⊥
IsBurnSending (signs s body sigs n o a e) = ⊥

abbrev pub IsRefundSending : {b c : InvalidMint} → InvalidMintEdge b c → Type 0
IsRefundSending (submits body hash o e) = Unit
IsRefundSending (retries o e) = Unit
IsRefundSending (succeeds o e) = Unit
IsRefundSending (fails o e) = ⊥
IsRefundSending (waits s k o a e) = ⊥
IsRefundSending (signs s body sigs n o a e) = ⊥

-- Of any service: it changes no document.
abbrev pub IsRead : Request → Type 0
IsRead (insert_burn b) = ⊥
IsRead (insert_mint m) = ⊥
IsRead (insert_invalid_mint d) = ⊥
IsRead (update_burn f u) = ⊥
IsRead (update_mint f u) = ⊥
IsRead (update_invalid_mint f u) = ⊥
IsRead r = Unit

-- Of the burn signer: it inserts nothing, and has burns and invalid mints fail, wait or signed.
abbrev pub IsBurnSignerRequest : Request → Type 0
IsBurnSignerRequest (insert_burn b) = ⊥
IsBurnSignerRequest (insert_mint m) = ⊥
IsBurnSignerRequest (insert_invalid_mint d) = ⊥
IsBurnSignerRequest (update_burn f u) =
    (b : Burn) → f b ≡ true → (e : BurnEdge b (u b)) × IsBurnSigning e
IsBurnSignerRequest (update_mint f u) = ⊥
IsBurnSignerRequest (update_invalid_mint f u) =
    (b : InvalidMint) → f b ≡ true → (e : InvalidMintEdge b (u b)) × IsRefundSigning e
IsBurnSignerRequest r = Unit

-- Of the burn executor: it inserts nothing, and has burns and invalid mints submitted, retried or
-- a success.
abbrev pub IsBurnExecutorRequest : Request → Type 0
IsBurnExecutorRequest (insert_burn b) = ⊥
IsBurnExecutorRequest (insert_mint m) = ⊥
IsBurnExecutorRequest (insert_invalid_mint d) = ⊥
IsBurnExecutorRequest (update_burn f u) =
    (b : Burn) → f b ≡ true → (e : BurnEdge b (u b)) × IsBurnSending e
IsBurnExecutorRequest (update_mint f u) = ⊥
IsBurnExecutorRequest (update_invalid_mint f u) =
    (b : InvalidMint) → f b ≡ true → (e : InvalidMintEdge b (u b)) × IsRefundSending e
IsBurnExecutorRequest r = Unit

-- Of the mint signer: it inserts nothing, and has mints fail, wait or signed.
abbrev pub IsMintSignerRequest : Request → Type 0
IsMintSignerRequest (insert_burn b) = ⊥
IsMintSignerRequest (insert_mint m) = ⊥
IsMintSignerRequest (insert_invalid_mint d) = ⊥
IsMintSignerRequest (update_burn f u) = ⊥
IsMintSignerRequest (update_mint f u) =
    (b : Mint) → f b ≡ true → (e : MintEdge b (u b)) × IsMintSigning e
IsMintSignerRequest (update_invalid_mint f u) = ⊥
IsMintSignerRequest r = Unit

-- A mint is of the recipient, amount and nonce of the event, and becomes a success with its hash.
pub record IsMintOfEvent (ext : External) (event : MintedEvent) (m n : Mint) : Type 0 where
  pub recipient : m.recipient_address ≡ to_lower (ext.address_hex event.recipient)
  pub amount : m.amount ≡ format_int event.amount
  pub nonce : m.nonce ≡ format_int event.nonce
  pub status : is_confirmed m.status || is_signed m.status || is_success m.status ≡ true
  pub marked : n ≡ record m {
    status = success;
    mint_transaction_hash = to_lower (ext.hash_hex event.raw.tx_hash);
  }

-- Of the mint executor: it inserts nothing, and marks the mints of an event that was not removed.
abbrev pub IsMintExecutorRequest : External → Request → Type 0
IsMintExecutorRequest ext (insert_burn b) = ⊥
IsMintExecutorRequest ext (insert_mint m) = ⊥
IsMintExecutorRequest ext (insert_invalid_mint d) = ⊥
IsMintExecutorRequest ext (update_burn f u) = ⊥
IsMintExecutorRequest ext (update_mint f u) =
    (event : MintedEvent) × (event.raw.removed ≡ false)
    × ((m : Mint) → f m ≡ true → IsMintOfEvent ext event m (u m))
IsMintExecutorRequest ext (update_invalid_mint f u) = ⊥
IsMintExecutorRequest ext r = Unit

pub burn_signer-IsLawful : (r : Request) → IsBurnSignerRequest r → IsLawful r
burn_signer-IsLawful (insert_burn b) h = absurd h
burn_signer-IsLawful (insert_mint m) h = absurd h
burn_signer-IsLawful (insert_invalid_mint d) h = absurd h
burn_signer-IsLawful (update_burn f u) h = λ b t. (h b t).0
burn_signer-IsLawful (update_mint f u) h = absurd h
burn_signer-IsLawful (update_invalid_mint f u) h = λ b t. (h b t).0
burn_signer-IsLawful r h = tt

pub burn_executor-IsLawful : (r : Request) → IsBurnExecutorRequest r → IsLawful r
burn_executor-IsLawful (insert_burn b) h = absurd h
burn_executor-IsLawful (insert_mint m) h = absurd h
burn_executor-IsLawful (insert_invalid_mint d) h = absurd h
burn_executor-IsLawful (update_burn f u) h = λ b t. (h b t).0
burn_executor-IsLawful (update_mint f u) h = absurd h
burn_executor-IsLawful (update_invalid_mint f u) h = λ b t. (h b t).0
burn_executor-IsLawful r h = tt

pub mint_signer-IsLawful : (r : Request) → IsMintSignerRequest r → IsLawful r
mint_signer-IsLawful (insert_burn b) h = absurd h
mint_signer-IsLawful (insert_mint m) h = absurd h
mint_signer-IsLawful (insert_invalid_mint d) h = absurd h
mint_signer-IsLawful (update_burn f u) h = absurd h
mint_signer-IsLawful (update_mint f u) h = λ b t. (h b t).0
mint_signer-IsLawful (update_invalid_mint f u) h = absurd h
mint_signer-IsLawful r h = tt

pub mint_executor-IsLawful :
    (ext : External) (r : Request) → IsMintExecutorRequest ext r → IsLawful r
mint_executor-IsLawful ext (insert_burn b) h = absurd h
mint_executor-IsLawful ext (insert_mint m) h = absurd h
mint_executor-IsLawful ext (insert_invalid_mint d) h = absurd h
mint_executor-IsLawful ext (update_burn f u) h = absurd h
mint_executor-IsLawful ext (update_mint f u) h =
    λ m t. let k = h.2 m t in minted _ k.status k.marked
mint_executor-IsLawful ext (update_invalid_mint f u) h = absurd h
mint_executor-IsLawful ext r h = tt

pub read-burn_executor : (r : Request) → IsRead r → IsBurnExecutorRequest r
read-burn_executor (insert_burn b) h = absurd h
read-burn_executor (insert_mint m) h = absurd h
read-burn_executor (insert_invalid_mint d) h = absurd h
read-burn_executor (update_burn f u) h = absurd h
read-burn_executor (update_mint f u) h = absurd h
read-burn_executor (update_invalid_mint f u) h = absurd h
read-burn_executor r h = tt
