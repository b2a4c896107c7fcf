-- ===== src/BurnExecutor/Lifecycle.antt =====
-- The requests of SyncTxs of cosmos/executor.go.
use wpokt_validator.Base.{ℕ, ◌≡◌, refl, true, Option, none, some, List, [], ◌∷◌, arith}
use wpokt_validator.Base.Bytes.{Bytes}
use wpokt_validator.Models.{
  Status, pending, confirmed, signed, submitted, success, failed, Burn, InvalidMint,
}
use wpokt_validator.Models.Config.{Config}
use wpokt_validator.Models.Chain.{TxResponse}
use wpokt_validator.External.Sdk.{Sdk, SignatureV2}
use wpokt_validator.Effect.Ensures.{Ensures-mono, Issues, Issues-bind, Issues-settle}
use wpokt_validator.Lifecycle.Actors.{
  IsRead, read-burn_executor, IsBurnSending, IsRefundSending, IsBurnExecutorRequest,
}
use wpokt_validator.Lifecycle.{BurnEdge, InvalidMintEdge, submits, retries, succeeds}
use wpokt_validator.Lifecycle.Rules.{
  rules, search_burns-Issues, search_invalid_mints-Issues, change_burn-Issues,
  change_invalid_mint-Issues,
}
use wpokt_validator.BurnExecutor.{
  Update, set_submitted, set_retried, set_succeeded, update_of_burn, update_of_invalid_mint, deref,
  submit, outcome_of, check, status_of, burn_filter, invalid_mint_filter, write_burn,
  write_invalid_mint, next_update, process_burn, process_invalid_mint, handle_burn,
  handle_invalid_mint, ready_burns, ready_invalid_mints, sync_burns, sync_invalid_mints, sync_txs,
}
use wpokt_validator.BurnExecutor.Signatures.{
  BurnExecutorRunner, add_multisignature, key_of, collect, validate_signature,
}

deref-Issues : (o : Option ℕ) → Issues IsRead (deref o)
unfolding deref
deref-Issues none = search rules
deref-Issues (some n) = search rules

module _ (sdk : Sdk) (cfg : Config) (x : BurnExecutorRunner) where
  open sdk use {TxBuilder}

  validate_signature-Issues :
      (sig : SignatureV2) (n s : ℕ) (b : TxBuilder)
      → Issues IsRead (validate_signature sdk cfg x sig n s b)
  unfolding validate_signature
  validate_signature-Issues sig n s b = search rules

  key_of-Issues : (o : Option Bytes) → Issues IsRead (key_of o)
  unfolding key_of
  key_of-Issues none = search rules
  key_of-Issues (some k) = search rules

  collect-Issues :
      (n s : ℕ) (b : TxBuilder) (sigs : List SignatureV2) (seen : List Bytes)
      (multisig : List SignatureV2)
      → Issues IsRead (collect sdk cfg x n s b sigs seen multisig)
  unfolding collect
  collect-Issues n s b [] seen multisig = search rules
  collect-Issues n s b (sig ∷ sigs) seen multisig =
      let rest : (ks : List Bytes) (ms : List SignatureV2)
          → Issues IsRead (collect sdk cfg x n s b sigs ks ms) =
        (λ ks ms. collect-Issues n s b sigs ks ms) in
      search (rules, key_of-Issues, validate_signature-Issues) depth 14

  add_multisignature-Issues :
      (n : ℕ) (b : TxBuilder) → Issues IsRead (add_multisignature sdk cfg x n b)
  unfolding add_multisignature
  add_multisignature-Issues n b = search (rules, collect-Issues) depth 14

  submit-Issues : (body : Bytes) (o : Option ℕ) → Issues IsRead (submit sdk cfg x body o)
  unfolding submit
  submit-Issues body o = search (rules, deref-Issues, add_multisignature-Issues) depth 18

  outcome_of-Issues : (o : Option TxResponse) → Issues IsRead (outcome_of sdk cfg x o)
  unfolding outcome_of
  outcome_of-Issues none = search rules
  outcome_of-Issues (some tx) = search rules

  check-Issues : (hash : Bytes) → Issues IsRead (check sdk cfg x hash)
  unfolding check
  check-Issues hash = search (rules, outcome_of-Issues) depth 9

  pub next_update-Issues :
      (s : Status) (body : Bytes) (o : Option ℕ) (hash : Bytes)
      → Issues IsRead (next_update sdk cfg x s body o hash)
  unfolding next_update
  next_update-Issues pending body o hash = search rules
  next_update-Issues confirmed body o hash = search rules
  next_update-Issues signed body o hash = submit-Issues body o
  next_update-Issues submitted body o hash = check-Issues hash
  next_update-Issues success body o hash = search rules
  next_update-Issues failed body o hash = search rules

  burn-edge :
      (u : Update) (b : Burn)
      → status_of sdk cfg x u b.status ≡ true
      → (e : BurnEdge b (update_of_burn u b)) × IsBurnSending e
  unfolding update_of_burn
  burn-edge (set_submitted body hash) b h = (submits body hash h refl, tt)
  burn-edge set_retried b h = (retries h refl, tt)
  burn-edge set_succeeded b h = (succeeds h refl, tt)

  invalid_mint-edge :
      (u : Update) (d : InvalidMint)
      → status_of sdk cfg x u d.status ≡ true
      → (e : InvalidMintEdge d (update_of_invalid_mint u d)) × IsRefundSending e
  unfolding update_of_invalid_mint
  invalid_mint-edge (set_submitted body hash) b h = (submits body hash h refl, tt)
  invalid_mint-edge set_retried b h = (retries h refl, tt)
  invalid_mint-edge set_succeeded b h = (succeeds h refl, tt)

  write_burn-Issues :
      (b : Burn) (u : Update) → Issues IsBurnExecutorRequest (write_burn sdk cfg x b u)
  unfolding write_burn
  write_burn-Issues b u =
      change_burn-Issues (burn_filter sdk cfg x u b) (update_of_burn u)
        (λ c h. burn-edge u c (ground arith))

  write_invalid_mint-Issues :
      (d : InvalidMint) (u : Update)
      → Issues IsBurnExecutorRequest (write_invalid_mint sdk cfg x d u)
  unfolding write_invalid_mint
  write_invalid_mint-Issues d u =
      change_invalid_mint-Issues (invalid_mint_filter sdk cfg x u d) (update_of_invalid_mint u)
        (λ c h. invalid_mint-edge u c (ground arith))

  handle_burn-Issues :
      (b : Burn)
      → ready_burns sdk cfg x b ≡ true
      → Issues IsBurnExecutorRequest (handle_burn sdk cfg x (some b))
  unfolding handle_burn process_burn
  handle_burn-Issues b h = Issues-settle _ (
      Issues-bind _ _
        (Ensures-mono _ read-burn_executor (
          next_update-Issues b.status b.return_transaction_body b.sequence
            b.return_transaction_hash))
        (λ u. write_burn-Issues b u))

  handle_invalid_mint-Issues :
      (d : InvalidMint)
      → ready_invalid_mints sdk cfg x d ≡ true
      → Issues IsBurnExecutorRequest (handle_invalid_mint sdk cfg x (some d))
  unfolding handle_invalid_mint process_invalid_mint
  handle_invalid_mint-Issues b h = Issues-settle _ (
      Issues-bind _ _
        (Ensures-mono _ read-burn_executor (
          next_update-Issues b.status b.return_transaction_body b.sequence
            b.return_transaction_hash))
        (λ u. write_invalid_mint-Issues b u))

  sync_burns-Issues : Issues IsBurnExecutorRequest (sync_burns sdk cfg x)
  unfolding sync_burns
  sync_burns-Issues =
      search_burns-Issues (λ _. tt) (λ _. tt) (ready_burns sdk cfg x) _
        (λ b. handle_burn sdk cfg x (some b)) tt handle_burn-Issues

  sync_invalid_mints-Issues : Issues IsBurnExecutorRequest (sync_invalid_mints sdk cfg x)
  unfolding sync_invalid_mints
  sync_invalid_mints-Issues =
      search_invalid_mints-Issues (λ _. tt) (λ _. tt) (ready_invalid_mints sdk cfg x) _
        (λ d. handle_invalid_mint sdk cfg x (some d)) tt handle_invalid_mint-Issues

  -- Whatever the database and the chain answer (documents found match the search), a sync of the
  -- burn executor inserts nothing and changes no mint, and it changes a burn or an invalid mint
  -- only where its filter matches, from signed to submitted, or from submitted to a success, or
  -- back to confirmed with no body, signatures, sequence and hash; all other fields stay.
  pub burn_executor-IsBurnExecutorRequest : Issues IsBurnExecutorRequest (sync_txs sdk cfg x)
  unfolding sync_txs
  burn_executor-IsBurnExecutorRequest =
      search (rules, sync_burns-Issues, sync_invalid_mints-Issues) depth 8
