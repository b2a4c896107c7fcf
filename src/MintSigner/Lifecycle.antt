-- ===== src/MintSigner/Lifecycle.antt =====
-- The requests of SyncTxs of eth/signer.go.
use wpokt_validator.Base.{
  length, length-map, ◌∙◌, sym, ℤ, ◌≡◌, refl, Bool, true, not, ◌||◌, Option, none, some, List, [],
  ◌∷◌, arith,
}
use wpokt_validator.Base.Bytes.{Bytes}
use wpokt_validator.Models.{is_open, is_confirmed, is_signed, Mint}
use wpokt_validator.Models.Config.{Config}
use wpokt_validator.Models.Chain.{Coin}
use wpokt_validator.External.{External}
use wpokt_validator.ValidateTx.{ValidateTxResult}
use wpokt_validator.Effect.Ensures.{
  Ensures, Issues, Ensures-ret, Ensures-lift_eq, Ensures-bind, Issues-bind, Ensures-if,
  Issues-settle,
}
use wpokt_validator.Confirmations.Open.{update_for_mint-open}
use wpokt_validator.Lifecycle.Actors.{IsMintSigning, IsMintSignerRequest}
use wpokt_validator.Lifecycle.{MintEdge, fails, waits, signs}
use wpokt_validator.Lifecycle.Rules.{rules, search_mints-Issues, change_mint-Issues}
use wpokt_validator.MintSigner.{
  Update, mark_failed, set_status, set_signed, update_of_mint, mint_filter, write_mint,
  sign_confirmed, decide, process_mint, handle_mint, unsigned_mints, sync_txs,
}
use wpokt_validator.MintSigner.Signing.{
  SigningKey, SignerSignaturePair, must, signature_of, sign_typed_data, sort_signers_and_signatures,
  signed_mint, sign_mint,
}
use wpokt_validator.MintSigner.Nonce.{
  MintSignerRunner, stored_nonce, next_nonce, nonce_or_next, find_nonce,
}
use wpokt_validator.MintSigner.Validation.{same_amount, judge_mint, validate_mint}

-- An update that an open mint may take.
abbrev Allowed : Update → Type 0
Allowed mark_failed = Unit
Allowed (set_status m) = is_open m.status ≡ true
Allowed (set_signed d m) =
    (is_confirmed m.status || is_signed m.status ≡ true) × (length m.signatures ≡ length m.signers)

mint-edge :
    (u : Update)
    → Allowed u
    → (m : Mint) → is_open m.status ≡ true
    → (e : MintEdge m (update_of_mint u m)) × IsMintSigning e
unfolding update_of_mint
mint-edge mark_failed a m o = (fails o refl, tt)
mint-edge (set_status n) a m o = (waits n.status n.confirmations o a refl, tt)
mint-edge (set_signed d n) a m o =
    (signs n.status n.confirmations d n.signers n.signatures o a.0 a.1 refl, tt)

must-Issues : {A : Type 0} (o : Option A) → Issues IsMintSignerRequest (must o)
unfolding must
must-Issues none = search rules
must-Issues (some a) = search rules

signature_of-Issues : (o : Option Bytes) → Issues IsMintSignerRequest (signature_of o)
unfolding signature_of
signature_of-Issues none = search rules
signature_of-Issues (some s) = must-Issues _

module _ (key : SigningKey) where
  sign_typed_data-Issues :
      (r : Bytes) (amount nonce : ℤ)
      → Issues IsMintSignerRequest (sign_typed_data key r amount nonce)
  unfolding sign_typed_data
  sign_typed_data-Issues r amount nonce = search (rules, signature_of-Issues)

  sort-Issues :
      (signers signatures : List Bytes)
      → Issues IsMintSignerRequest (sort_signers_and_signatures key signers signatures)
  unfolding sort_signers_and_signatures
  sort-Issues signers signatures = search (rules, must-Issues)

  signed_mint-Allowed :
      (t : ℤ) (m : Mint) (pairs : List SignerSignaturePair)
      → is_confirmed m.status ≡ true
      → (is_confirmed (signed_mint key t m pairs).status
            || is_signed (signed_mint key t m pairs).status
          ≡ true)
        × (length (signed_mint key t m pairs).signatures
            ≡ length (signed_mint key t m pairs).signers)
  unfolding signed_mint
  signed_mint-Allowed t m pairs c = (ground arith, length-map _ pairs ∙ sym (length-map _ pairs))

  sign_mint-Ensures :
      (t : ℤ) (m : Mint) (r : Bytes) (amount nonce : ℤ)
      → is_confirmed m.status ≡ true
      → Ensures IsMintSignerRequest
          (λ n.
            (is_confirmed n.status || is_signed n.status ≡ true)
            × (length n.signatures ≡ length n.signers))
          (sign_mint key t m r amount nonce)
  unfolding sign_mint
  sign_mint-Ensures t m r amount nonce c =
      Issues-bind _ _ (sign_typed_data-Issues r amount nonce) (λ s.
        Issues-bind _ _ (sort-Issues _ _)
          (λ pairs. Ensures-ret _ (signed_mint-Allowed t m pairs c)))

module _ (ext : External) (x : MintSignerRunner) where
  stored_nonce-Issues : (s : Bytes) → Issues IsMintSignerRequest (stored_nonce s)
  unfolding stored_nonce
  stored_nonce-Issues [] = search rules
  stored_nonce-Issues (c ∷ s) = search rules

  next_nonce-Issues : (m : Mint) → Issues IsMintSignerRequest (next_nonce ext x m)
  unfolding next_nonce
  next_nonce-Issues m = search rules depth 12

  nonce_or_next-Issues :
      (m : Mint) (o : Option ℤ) → Issues IsMintSignerRequest (nonce_or_next ext x m o)
  unfolding nonce_or_next
  nonce_or_next-Issues m none = next_nonce-Issues m
  nonce_or_next-Issues m (some n) = search (rules, next_nonce-Issues)

  find_nonce-Issues : (m : Mint) → Issues IsMintSignerRequest (find_nonce ext x m)
  unfolding find_nonce
  find_nonce-Issues m = search (rules, stored_nonce-Issues, nonce_or_next-Issues)

  module _ (cfg : Config) where
    same_amount-Issues :
        (c : Option Coin) (n : Option ℤ) → Issues IsMintSignerRequest (same_amount ext cfg x c n)
    unfolding same_amount
    same_amount-Issues c none = search rules
    same_amount-Issues none (some n) = search rules
    same_amount-Issues (some c) (some n) = search rules

    judge_mint-Issues :
        (m : Mint) (o : Option ValidateTxResult)
        → Issues IsMintSignerRequest (judge_mint ext cfg x m o)
    unfolding judge_mint
    judge_mint-Issues m none = search rules
    judge_mint-Issues m (some r) = search (rules, same_amount-Issues) depth 10

    validate_mint-Issues : (m : Mint) → Issues IsMintSignerRequest (validate_mint ext cfg x m)
    unfolding validate_mint
    validate_mint-Issues m = search (rules, judge_mint-Issues) depth 9

module _ (ext : External) (key : SigningKey) (cfg : Config) (x : MintSignerRunner) where
  sign_confirmed-Allowed :
      (m : Mint) (amount nonce : ℤ)
      → is_confirmed m.status ≡ true
      → Ensures IsMintSignerRequest Allowed (sign_confirmed ext key cfg x m amount nonce)
  unfolding sign_confirmed
  sign_confirmed-Allowed m amount nonce c =
      Ensures-bind _ _ (sign_mint-Ensures key _ m _ amount nonce c) (λ n a. Ensures-ret _ a)

  decide-Allowed :
      (m : Mint) (amount nonce : ℤ) (v : Bool)
      → is_open m.status ≡ true
      → Ensures IsMintSignerRequest Allowed (decide ext key cfg x m amount nonce v)
  unfolding decide
  decide-Allowed m amount nonce v o =
      Ensures-if (not v) _ _ (λ _. Ensures-ret _ tt)
        (λ _.
          Ensures-if (is_confirmed m.status) _ _ (λ c. sign_confirmed-Allowed m amount nonce c)
            (λ _. Ensures-ret _ o))

  write_mint-Issues :
      (m : Mint) (u : Update)
      → Allowed u
      → Issues IsMintSignerRequest (write_mint ext key cfg x m u)
  unfolding write_mint
  write_mint-Issues m u a =
      change_mint-Issues (mint_filter ext key cfg x m) (update_of_mint u)
        (λ c h. mint-edge u a c (ground arith))

  process_mint-Issues :
      (m : Mint)
      → is_open m.status ≡ true
      → Issues IsMintSignerRequest (process_mint ext key cfg x m)
  unfolding process_mint
  process_mint-Issues m o = Issues-bind _ _ (search rules) (λ amount.
      Issues-bind _ _ (find_nonce-Issues ext x m) (λ nonce. Issues-bind _ _ (search rules) (λ _.
        Ensures-bind _ _ (Ensures-lift_eq _) (λ n e.
          Issues-bind _ _ (validate_mint-Issues ext x cfg n) (λ v.
            Ensures-bind _ _ (decide-Allowed n amount nonce v (update_for_mint-open _ _ m n o e))
              (λ u a. write_mint-Issues n u a))))))

  handle_mint-Issues :
      (m : Mint)
      → unsigned_mints ext key cfg x m ≡ true
      → Issues IsMintSignerRequest (handle_mint ext key cfg x (some m))
  unfolding handle_mint
  handle_mint-Issues m h = Issues-settle _ (process_mint-Issues m (ground arith))

  -- Whatever the database and the chains answer (documents found match the search), a sync of
  -- the mint signer inserts nothing and changes no burn and no invalid mint, and it changes a
  -- mint only where its filter matches, from an open status, to failed, to an open status with
  -- its confirmations, or to confirmed or signed with its confirmations, mint data, the nonce of
  -- these data, and as many signatures as signers; all other fields stay.
  pub mint_signer-IsMintSignerRequest : Issues IsMintSignerRequest (sync_txs ext key cfg x)
  unfolding sync_txs
  mint_signer-IsMintSignerRequest =
      search_mints-Issues (λ _. tt) (λ _. tt) (unsigned_mints ext key cfg x) _
        (λ m. handle_mint ext key cfg x (some m)) tt handle_mint-Issues
