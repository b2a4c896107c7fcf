-- ===== src/BurnSigner/Lifecycle.antt =====
-- The requests of SyncTxs of cosmos/signer.go.
use wpokt_validator.Base.{ℕ, ◌≡◌, refl, Bool, true, not, ◌||◌, Option, none, some, List, arith}
use wpokt_validator.Base.Bytes.{Bytes, eqb, bytes}
use wpokt_validator.Models.{is_open, is_confirmed, is_signed, Signature, Burn, InvalidMint}
use wpokt_validator.Models.Config.{Config}
use wpokt_validator.Models.Chain.{Coin}
use wpokt_validator.External.{External}
use wpokt_validator.External.Sdk.{Sdk}
use wpokt_validator.Effect.{Program}
use wpokt_validator.Effect.Ensures.{
  Ensures, Issues, Ensures-ret, Ensures-fail, Ensures-lift_eq, Ensures-bind, Issues-bind,
  Ensures-if, Issues-settle,
}
use wpokt_validator.Confirmations.Open.{update_for_burn-open, update_for_invalid_mint-open}
use wpokt_validator.Lifecycle.Actors.{IsBurnSigning, IsRefundSigning, IsBurnSignerRequest}
use wpokt_validator.Lifecycle.{BurnEdge, InvalidMintEdge, fails, waits, signs}
use wpokt_validator.Lifecycle.Rules.{
  rules, change_invalid_mint-Issues, search_invalid_mints-Issues, change_burn-Issues,
  search_burns-Issues,
}
use wpokt_validator.Sequence.Reads.{find_sequence-Issues, with_write_lock-Issues}
use wpokt_validator.SignTx.Reads.{sign_tx-Issues, new_coin-Issues}
use wpokt_validator.BurnSigner.Validation.{
  BurnSignerRunner, validate_burn, validate_invalid_mint, judge_refund, same_amount,
}
use wpokt_validator.BurnSigner.{
  sequence_of, sign, amount_coin, sign_burn, sign_invalid_mint, decide_burn, decide_invalid_mint,
  write_burn, write_invalid_mint, process_burn, process_invalid_mint, handle_burn,
  handle_invalid_mint, sync_burns, sync_invalid_mints, sync_txs, unsigned_burns,
  unsigned_invalid_mints, burn_filter, invalid_mint_filter, locked_if_signed,
}
use wpokt_validator.ValidateTx.{ValidateTxResult}
use wpokt_validator.BurnSigner.Documents.{
  set_of, Update, mark_failed, set_status, set_signed, update_of_burn, update_of_invalid_mint,
}

-- An update that an open document may take.
abbrev Allowed : Update → Type 0
Allowed mark_failed = Unit
Allowed (set_status s k) = is_open s ≡ true
Allowed (set_signed g) = is_confirmed g.status || is_signed g.status ≡ true

set_of-Allowed :
    (t n : ℕ) (body : Bytes) (sigs : List Signature) → Allowed (set_signed (set_of t n body sigs))
unfolding set_of
set_of-Allowed t n body sigs = ground arith

update_of_burn-edge :
    (u : Update)
    → Allowed u
    → (b : Burn) → is_open b.status ≡ true
    → (e : BurnEdge b (update_of_burn u b)) × IsBurnSigning e
unfolding update_of_burn
update_of_burn-edge mark_failed a b o = (fails o refl, tt)
update_of_burn-edge (set_status s k) a b o = (waits s k o a refl, tt)
update_of_burn-edge (set_signed g) a b o =
    (signs g.status g.return_transaction_body g.signatures g.sequence o a refl, tt)

update_of_invalid_mint-edge :
    (u : Update)
    → Allowed u
    → (d : InvalidMint) → is_open d.status ≡ true
    → (e : InvalidMintEdge d (update_of_invalid_mint u d)) × IsRefundSigning e
unfolding update_of_invalid_mint
update_of_invalid_mint-edge mark_failed a b o = (fails o refl, tt)
update_of_invalid_mint-edge (set_status s k) a b o = (waits s k o a refl, tt)
update_of_invalid_mint-edge (set_signed g) a b o =
    (signs g.status g.return_transaction_body g.signatures g.sequence o a refl, tt)

module _ (ext : External) (sdk : Sdk) (cfg : Config) (x : BurnSignerRunner) where
  sequence_of-Issues : (o : Option ℕ) → Issues IsBurnSignerRequest (sequence_of ext sdk cfg x o)
  unfolding sequence_of
  sequence_of-Issues none = find_sequence-Issues cfg (λ _. tt) tt tt tt (λ _. tt) x.multisig_address
  sequence_of-Issues (some n) = search rules

  sign-Allowed :
      (o : Option ℕ) (sigs : List Signature) (body to : Bytes) (coin : Coin) (memo : Bytes)
      → Ensures IsBurnSignerRequest
          (λ g. Allowed (set_signed g))
          (sign ext sdk cfg x o sigs body to coin memo)
  unfolding sign
  sign-Allowed o sigs body to coin memo = Issues-bind _ _ (sequence_of-Issues o) (λ n.
      Issues-bind _ _ (sign_tx-Issues (λ _. tt) ext sdk cfg.pocket x.public_key _)
        (λ r. Ensures-ret _ (set_of-Allowed cfg.pocket.multisig_threshold n r.0 r.1)))

  amount_coin-Issues : (o : Option _) → Issues IsBurnSignerRequest (amount_coin ext sdk cfg x o)
  unfolding amount_coin
  amount_coin-Issues none = search rules
  amount_coin-Issues (some n) = new_coin-Issues ext _ n

  sign_burn-Allowed : (b : Burn) → Ensures IsBurnSignerRequest Allowed (sign_burn ext sdk cfg x b)
  unfolding sign_burn
  sign_burn-Allowed b = Issues-bind _ _ (amount_coin-Issues _) (λ coin.
      Issues-bind _ _ (search rules)
        (λ to. Ensures-bind _ _ (sign-Allowed _ _ _ to coin _) (λ g a. Ensures-ret _ a)))

  sign_invalid_mint-Allowed :
      (d : InvalidMint) → Ensures IsBurnSignerRequest Allowed (sign_invalid_mint ext sdk cfg x d)
  unfolding sign_invalid_mint
  sign_invalid_mint-Allowed b = Issues-bind _ _ (amount_coin-Issues _) (λ coin.
      Issues-bind _ _ (search rules)
        (λ to. Ensures-bind _ _ (sign-Allowed _ _ _ to coin _) (λ g a. Ensures-ret _ a)))

  decide_burn-Allowed :
      (b : Burn) (v : Bool)
      → is_open b.status ≡ true
      → Ensures IsBurnSignerRequest Allowed (decide_burn ext sdk cfg x b v)
  unfolding decide_burn
  decide_burn-Allowed b v o =
      Ensures-if (not v) _ _
        (λ _.
          Ensures-if (eqb b.confirmations (bytes "0")) _ _ (λ _. Ensures-fail)
            (λ _. Ensures-ret _ tt))
        (λ _.
          Ensures-if (is_confirmed b.status) _ _ (λ _. sign_burn-Allowed b) (λ _. Ensures-ret _ o))

  decide_invalid_mint-Allowed :
      (d : InvalidMint) (v : Bool)
      → is_open d.status ≡ true
      → Ensures IsBurnSignerRequest Allowed (decide_invalid_mint ext sdk cfg x d v)
  unfolding decide_invalid_mint
  decide_invalid_mint-Allowed b v o =
      Ensures-if (not v) _ _
        (λ _.
          Ensures-if (eqb b.confirmations (bytes "0")) _ _ (λ _. Ensures-fail)
            (λ _. Ensures-ret _ tt))
        (λ _.
          Ensures-if (is_confirmed b.status) _ _ (λ _. sign_invalid_mint-Allowed b)
            (λ _. Ensures-ret _ o))

  locked_if_signed-Issues :
      (u : Update) (w : Program Bool)
      → Issues IsBurnSignerRequest w
      → Issues IsBurnSignerRequest (locked_if_signed ext sdk cfg x u w)
  locked_if_signed-Issues mark_failed w h = h
  locked_if_signed-Issues (set_status s k) w h = h
  locked_if_signed-Issues (set_signed g) w h = with_write_lock-Issues tt (λ _. tt) w h

  write_burn-Issues :
      (b : Burn) (u : Update)
      → Allowed u
      → Issues IsBurnSignerRequest (write_burn ext sdk cfg x b u)
  unfolding write_burn
  write_burn-Issues b u a = locked_if_signed-Issues u _ (
      change_burn-Issues (burn_filter ext sdk cfg x b) (update_of_burn u)
        (λ c h. update_of_burn-edge u a c (ground arith)))

  write_invalid_mint-Issues :
      (d : InvalidMint) (u : Update)
      → Allowed u
      → Issues IsBurnSignerRequest (write_invalid_mint ext sdk cfg x d u)
  unfolding write_invalid_mint
  write_invalid_mint-Issues b u a = locked_if_signed-Issues u _ (
      change_invalid_mint-Issues (invalid_mint_filter ext sdk cfg x b) (update_of_invalid_mint u)
        (λ c h. update_of_invalid_mint-edge u a c (ground arith)))

  validate_burn-Issues : (b : Burn) → Issues IsBurnSignerRequest (validate_burn ext cfg x b)
  unfolding validate_burn
  validate_burn-Issues b = search rules depth 9

  same_amount-Issues :
      (d : InvalidMint) (r : ValidateTxResult) (c : Option Coin) (n : Option _)
      → Issues IsBurnSignerRequest (same_amount ext cfg x d r c n)
  unfolding same_amount
  same_amount-Issues d r c none = search rules
  same_amount-Issues d r none (some n) = search rules
  same_amount-Issues d r (some c) (some n) = search rules

  judge_refund-Issues :
      (d : InvalidMint) (o : Option ValidateTxResult)
      → Issues IsBurnSignerRequest (judge_refund ext cfg x d o)
  unfolding judge_refund
  judge_refund-Issues d none = search rules
  judge_refund-Issues d (some r) = search (rules, same_amount-Issues) depth 9

  validate_invalid_mint-Issues :
      (d : InvalidMint) → Issues IsBurnSignerRequest (validate_invalid_mint ext cfg x d)
  unfolding validate_invalid_mint
  validate_invalid_mint-Issues d = search (rules, judge_refund-Issues) depth 9

  process_burn-Issues :
      (b : Burn)
      → is_open b.status ≡ true
      → Issues IsBurnSignerRequest (process_burn ext sdk cfg x b)
  unfolding process_burn
  process_burn-Issues b o = Ensures-bind _ _ (Ensures-lift_eq _) (λ d e.
      Issues-bind _ _ (validate_burn-Issues d) (λ v.
        Ensures-bind _ _ (decide_burn-Allowed d v (update_for_burn-open _ _ b d o e))
          (λ u a. write_burn-Issues d u a)))

  process_invalid_mint-Issues :
      (d : InvalidMint)
      → is_open d.status ≡ true
      → Issues IsBurnSignerRequest (process_invalid_mint ext sdk cfg x d)
  unfolding process_invalid_mint
  process_invalid_mint-Issues b o = Ensures-bind _ _ (Ensures-lift_eq _) (λ d e.
      Issues-bind _ _ (validate_invalid_mint-Issues d) (λ v.
        Ensures-bind _ _
          (decide_invalid_mint-Allowed d v (update_for_invalid_mint-open _ _ b d o e))
          (λ u a. write_invalid_mint-Issues d u a)))

  handle_burn-Issues :
      (b : Burn)
      → unsigned_burns ext sdk cfg x b ≡ true
      → Issues IsBurnSignerRequest (handle_burn ext sdk cfg x (some b))
  unfolding handle_burn
  handle_burn-Issues b h = Issues-settle _ (process_burn-Issues b (ground arith))

  handle_invalid_mint-Issues :
      (d : InvalidMint)
      → unsigned_invalid_mints ext sdk cfg x d ≡ true
      → Issues IsBurnSignerRequest (handle_invalid_mint ext sdk cfg x (some d))
  unfolding handle_invalid_mint
  handle_invalid_mint-Issues b h = Issues-settle _ (process_invalid_mint-Issues b (ground arith))

  sync_burns-Issues : Issues IsBurnSignerRequest (sync_burns ext sdk cfg x)
  unfolding sync_burns
  sync_burns-Issues =
      search_burns-Issues (λ _. tt) (λ _. tt) (unsigned_burns ext sdk cfg x) _
        (λ b. handle_burn ext sdk cfg x (some b)) tt handle_burn-Issues

  sync_invalid_mints-Issues : Issues IsBurnSignerRequest (sync_invalid_mints ext sdk cfg x)
  unfolding sync_invalid_mints
  sync_invalid_mints-Issues =
      search_invalid_mints-Issues (λ _. tt) (λ _. tt) (unsigned_invalid_mints ext sdk cfg x) _
        (λ d. handle_invalid_mint ext sdk cfg x (some d)) tt handle_invalid_mint-Issues

  -- Whatever the database and the chains answer (documents found match the search), a sync of
  -- the burn signer inserts nothing and changes no mint, and it changes a burn or an invalid
  -- mint only where its filter matches, from an open status, to failed, to an open status with
  -- its confirmations, or to confirmed or signed with a body, signatures and a sequence; all
  -- other fields stay.
  pub burn_signer-IsBurnSignerRequest : Issues IsBurnSignerRequest (sync_txs ext sdk cfg x)
  unfolding sync_txs
  burn_signer-IsBurnSignerRequest =
      search (rules, sync_burns-Issues, sync_invalid_mints-Issues) depth 8
