-- ===== src/MintSigner/Validation/Sound.antt =====
-- ValidateMint of eth/signer.go, and the transaction of a mint.
use wpokt_validator.Base.{
  ℤ, ◌≡◌, refl, true, false, not, ◌||◌, Option, none, some, arith, eq_of_parts, eqb_ℤ, ◌∙◌, ap, sym,
}
use wpokt_validator.Base.Bytes.{equal_fold}
use wpokt_validator.Models.{Mint}
use wpokt_validator.Models.Config.{Config}
use wpokt_validator.Models.Chain.{Coin, TxResponse}
use wpokt_validator.External.{External}
use wpokt_validator.ValidateTx.{ValidateTxResult, validate_tx_to_cosmos_multisig}
use wpokt_validator.Effect.{get_tx}
use wpokt_validator.Effect.Run.{
  Environment, returned, run, run-ask, run-bind-returned, returned-inj, lift-returned,
}
use wpokt_validator.MintSigner.Nonce.{MintSignerRunner}
use wpokt_validator.MintSigner.Validation.{same_amount, judge_mint, validate_mint}

module _ (ext : External) (cfg : Config) (x : MintSignerRunner) where
  -- The transaction's verdict allows the mint: the transaction is valid and not to be refunded, and
  -- the mint's sender, recipient, chain and amount are its own.
  pub record IsBacked (mint : Mint) (tx : TxResponse) (result : ValidateTxResult) (coin : Coin)
      : Type 0 where
    pub judged :
        validate_tx_to_cosmos_multisig ext cfg x.minimum_amount x.maximum_amount tx ≡ some result
    pub valid : result.tx_valid ≡ true
    pub kept : result.needs_refund ≡ false
    pub same_sender : equal_fold result.sender_address mint.sender_address ≡ true
    pub same_recipient : equal_fold result.memo.address mint.recipient_address ≡ true
    pub same_chain : equal_fold result.memo.chain_id mint.recipient_chain_id ≡ true
    pub paid : result.amount ≡ some coin
    pub same : ext.new_int_from_string mint.amount ≡ some coin.amount

  module _ (env : Environment) where
    same_amount-returned :
        (c : Option Coin) (n : Option ℤ)
        → run env (same_amount ext cfg x c n) ≡ returned true
        → (coin : Coin) × (c ≡ some coin) × (n ≡ some coin.amount)
    unfolding same_amount run
    same_amount-returned none none h = ground arith
    same_amount-returned (some c) none h = ground arith
    same_amount-returned none (some n) h = ground arith
    same_amount-returned (some c) (some n) h =
        let e : eqb_ℤ c.amount n ≡ true = returned-inj h in
        let same : c.amount ≡ n = eq_of_parts c.amount n (ground arith) in
        (c, refl, ap some (sym same))

    judge_mint-returned :
        (mint : Mint) (tx : TxResponse) (o : Option ValidateTxResult)
        → validate_tx_to_cosmos_multisig ext cfg x.minimum_amount x.maximum_amount tx ≡ o
        → run env (judge_mint ext cfg x mint o) ≡ returned true
        → (result : ValidateTxResult) × (coin : Coin) × IsBacked mint tx result coin
    unfolding judge_mint run
    judge_mint-returned mint tx none j h = ground arith
    judge_mint-returned mint tx (some r) j h =
        let a : r.needs_refund || not r.tx_valid ≡ false = ground arith in
        let b : not (equal_fold r.sender_address mint.sender_address) ≡ false = ground arith in
        let c : not (equal_fold r.memo.address mint.recipient_address) ≡ false = ground arith in
        let d : not (equal_fold r.memo.chain_id mint.recipient_chain_id) ≡ false = ground arith in
        let k : run env (same_amount ext cfg x r.amount (ext.new_int_from_string mint.amount))
            ≡ returned true =
          rw (a, b, c, d) at h in
        let (coin, paid, same) =
          same_amount-returned r.amount (ext.new_int_from_string mint.amount) k in
        (
          r,
          coin,
          record {
            judged = j;
            valid = ground arith;
            kept = ground arith;
            same_sender = ground arith;
            same_recipient = ground arith;
            same_chain = ground arith;
            paid = paid;
            same = same;
          },
        )

    -- A mint that passes its validation is of a transaction that the node answers for its hash, whose
    -- verdict is valid and without refund, with the mint's sender, recipient, chain and amount.
    pub validate_mint-IsBacked :
        (mint : Mint)
        → run env (validate_mint ext cfg x mint) ≡ returned true
        → (tx : TxResponse) × (result : ValidateTxResult) × (coin : Coin) × (env
              (get_tx mint.transaction_hash)
            ≡ some (some tx))
          × IsBacked mint tx result coin
    unfolding validate_mint
    validate_mint-IsBacked mint h =
        let (answer, asked, h₁) = run-bind-returned env _ _ h in
        let (found, ok, h₂) = run-bind-returned env _ _ h₁ in
        let (tx, here, h₃) = run-bind-returned env _ _ h₂ in
        let (result, coin, backed) = judge_mint-returned mint tx _ refl h₃ in
        (
          tx,
          result,
          coin,
          returned-inj (rw run-ask at asked)
              ∙ lift-returned env _ ok
              ∙ ap some (lift-returned env _ here),
          backed,
        )
