-- ===== src/BurnSigner/Validation/Refund.antt =====
-- ValidateInvalidMint of cosmos/signer.go, and the transaction of an invalid mint.
use wpokt_validator.Base.{
  ℤ, ◌≡◌, refl, true, false, not, ◌&&◌, ◌||◌, Option, none, some, arith, ap, sym, ◌∙◌, eq_of_parts,
  eqb_ℤ,
}
use wpokt_validator.Base.Bytes.{Bytes, eqb→eq, equal_fold}
use wpokt_validator.Models.{InvalidMint}
use wpokt_validator.Models.Config.{Config}
use wpokt_validator.Models.Chain.{Coin, TxResponse}
use wpokt_validator.External.{External}
use wpokt_validator.ValidateTx.{ValidateTxResult, validate_tx_to_cosmos_multisig}
use wpokt_validator.Effect.{get_tx}
use wpokt_validator.Effect.Run.{
  Environment, returned, run, run-ask, run-bind-returned, returned-inj, lift-returned,
}
use wpokt_validator.BurnSigner.Validation.{
  BurnSignerRunner, body_memo, same_memo, same_amount, judge_refund, validate_invalid_mint,
}

module _ (ext : External) (cfg : Config) (x : BurnSignerRunner) where
  -- The transaction's verdict allows the refund: the transaction is valid, minting is disabled or
  -- the transaction is to be refunded, and the sender, the amount and the memo are its own.
  pub record IsRefundable (doc : InvalidMint) (tx : TxResponse) (result : ValidateTxResult)
      (coin : Coin) : Type 0 where
    pub judged :
        validate_tx_to_cosmos_multisig ext cfg x.minimum_amount x.maximum_amount tx ≡ some result
    pub valid : result.tx_valid ≡ true
    pub refunded : cfg.pocket.mint_disabled || result.needs_refund ≡ true
    pub same_sender : equal_fold result.sender_address doc.sender_address ≡ true
    pub paid : result.amount ≡ some coin
    pub same : ext.new_int_from_string doc.amount ≡ some coin.amount
    pub remembered : body_memo ext cfg x result.tx ≡ some doc.memo

  same_memo_lem :
      (doc : InvalidMint) (o : Option Bytes) → same_memo ext cfg x doc o ≡ true → o ≡ some doc.memo
  unfolding same_memo
  same_memo_lem doc none h = ground arith
  same_memo_lem doc (some m) h = ap some (eqb→eq m doc.memo h)

  module _ (env : Environment) where
    same_amount-returned :
        (doc : InvalidMint) (result : ValidateTxResult) (c : Option Coin) (n : Option ℤ)
        → run env (same_amount ext cfg x doc result c n) ≡ returned true
        → (coin : Coin) × (c ≡ some coin)
          × (n ≡ some coin.amount)
          × (body_memo ext cfg x result.tx ≡ some doc.memo)
    unfolding same_amount run
    same_amount-returned doc result none none h = ground arith
    same_amount-returned doc result (some c) none h = ground arith
    same_amount-returned doc result none (some n) h = ground arith
    same_amount-returned doc result (some c) (some n) h =
        let e : eqb_ℤ c.amount n ≡ true = ground arith in
        let m : same_memo ext cfg x doc (body_memo ext cfg x result.tx) ≡ true = ground arith in
        let same : c.amount ≡ n = eq_of_parts c.amount n (ground arith) in
        (c, refl, ap some (sym same), same_memo_lem doc _ m)

    judge_refund-returned :
        (doc : InvalidMint) (tx : TxResponse) (o : Option ValidateTxResult)
        → validate_tx_to_cosmos_multisig ext cfg x.minimum_amount x.maximum_amount tx ≡ o
        → run env (judge_refund ext cfg x doc o) ≡ returned true
        → (result : ValidateTxResult) × (coin : Coin) × IsRefundable doc tx result coin
    unfolding judge_refund run
    judge_refund-returned doc tx none j h = ground arith
    judge_refund-returned doc tx (some r) j h =
        let a : not r.tx_valid ≡ false = ground arith in
        let b : not cfg.pocket.mint_disabled && not r.needs_refund ≡ false = ground arith in
        let c : not (equal_fold r.sender_address doc.sender_address) ≡ false = ground arith in
        let k : run env (same_amount ext cfg x doc r r.amount (ext.new_int_from_string doc.amount))
            ≡ returned true =
          rw (a, b, c) at h in
        let (coin, paid, same, memo) =
          same_amount-returned doc r r.amount (ext.new_int_from_string doc.amount) k in
        (
          r,
          coin,
          record {
            judged = j;
            valid = ground arith;
            refunded = ground arith;
            same_sender = ground arith;
            paid = paid;
            same = same;
            remembered = memo;
          },
        )

    -- An invalid mint that passes its validation is of a transaction that the node answers for its
    -- hash, whose verdict is valid, which is to be refunded or comes while minting is disabled, and
    -- which has the sender, the amount and the memo of the document.
    pub validate_invalid_mint-IsRefundable :
        (doc : InvalidMint)
        → run env (validate_invalid_mint ext cfg x doc) ≡ returned true
        → (tx : TxResponse) × (result : ValidateTxResult) × (coin : Coin) × (env
              (get_tx doc.transaction_hash)
            ≡ some (some tx))
          × IsRefundable doc tx result coin
    unfolding validate_invalid_mint
    validate_invalid_mint-IsRefundable doc h =
        let (answer, asked, h₁) = run-bind-returned env _ _ h in
        let (found, ok, h₂) = run-bind-returned env _ _ h₁ in
        let (tx, here, h₃) = run-bind-returned env _ _ h₂ in
        let (result, coin, backed) = judge_refund-returned doc tx _ refl h₃ in
        (
          tx,
          result,
          coin,
          returned-inj (rw run-ask at asked)
              ∙ lift-returned env _ ok
              ∙ ap some (lift-returned env _ here),
          backed,
        )
