-- ===== src/ValidateTx/Verdict.antt =====
-- The verdicts of ValidateTxToCosmosMultisig, cosmos/util/validate_tx.go.
use wpokt_validator.Base.{
  ℤ, pos, ◌≡◌, ◌≢◌, refl, ◌⊎◌, inl, inr, true, false, Option, none, some, List, [], ◌∷◌, ◌≤ℤ◌, ◌<ℤ◌,
  leb_ℤ, eqb_ℤ, ◌==◌, arith, Bool-cases, Option-cases, ltb_ℤ,
}
use wpokt_validator.Base.Bytes.{Bytes}
use wpokt_validator.Models.Config.{Config}
use wpokt_validator.Models.Chain.{Tx, TxResponse}
use wpokt_validator.External.{External}
use wpokt_validator.Events.{TransferEvent, parse_transfer_events}
use wpokt_validator.Memo.{validate_memo}
use wpokt_validator.ValidateTx.{
  ValidateTxResult, unjudged, judge_tx, judge_transfers, judge_memo, validate_tx_to_cosmos_multisig,
}

module _ (ext : External) (cfg : Config) (min_amount max_amount : ℤ) (response : TxResponse) where
  abbrev pub transfers : Option (List TransferEvent)
  transfers =
      parse_transfer_events ext cfg.pocket.multisig_address cfg.pocket.coin_denom response.events

  -- The transaction succeeded, reports one transfer to the vault, of more than the minimum, and
  -- decodes to a body with a memo.
  pub record IsTransfer (t : TransferEvent) (tx : Tx) (memo : Bytes) : Type 0 where
    pub succeeded : response.code ≡ 0
    pub alone : transfers ≡ some (t ∷ [])
    pub nonzero : t.amount.amount ≢ pos 0
    pub above : min_amount <ℤ t.amount.amount
    pub decoded : ext.unmarshal_tx response.tx_value ≡ some tx
    pub has_memo : tx.body_memo ≡ some memo

  pub data Verdict (result : ValidateTxResult) : Type 0 where
    rejected :
        result.tx_valid ≡ false
        → result.needs_refund ≡ false
        → ((t : TransferEvent) (tx : Tx) (memo : Bytes) → ¬ IsTransfer t tx memo)
        → Verdict result
    refundable :
        (t : TransferEvent) (tx : Tx) (memo : Bytes)
        → IsTransfer t tx memo
        → result.tx_valid ≡ true
        → result.needs_refund ≡ true
        → result.tx ≡ some tx
        → result.amount ≡ some t.amount
        → result.sender_address ≡ t.sender
        → (validate_memo ext cfg.ethereum.chain_id memo ≡ none) ⊎ (max_amount <ℤ t.amount.amount)
        → Verdict result
    mintable :
        (t : TransferEvent) (tx : Tx) (memo : Bytes)
        → IsTransfer t tx memo
        → result.tx_valid ≡ true
        → result.needs_refund ≡ false
        → result.tx ≡ some tx
        → result.amount ≡ some t.amount
        → result.sender_address ≡ t.sender
        → validate_memo ext cfg.ethereum.chain_id memo ≡ some result.memo
        → t.amount.amount ≤ℤ max_amount
        → Verdict result

  module _ (t : TransferEvent) (result : ValidateTxResult) where
    abbrev seen : ValidateTxResult
    seen = record (unjudged ext cfg min_amount max_amount response) {
      sender_address = t.sender;
      amount = some t.amount;
    }

    Verdict-memo :
        (tx : Tx) (memo : Bytes)
        → IsTransfer t tx memo
        → judge_memo ext cfg min_amount max_amount
            (record seen { tx = some tx; tx_valid = true })
            t.amount
            (validate_memo ext cfg.ethereum.chain_id memo)
          ≡ result
        → Verdict result
    unfolding judge_memo
    Verdict-memo tx memo k h = elim (Option-cases (validate_memo ext cfg.ethereum.chain_id memo)) [
      | inl e ↦
          refundable t tx memo k (ground arith) (ground arith) (ground arith) (ground arith)
            (ground arith) (inl e)
      | inr (m, e) ↦ elim (Bool-cases (ltb_ℤ max_amount t.amount.amount)) [
        | inl b ↦
            refundable t tx memo k (ground arith) (ground arith) (ground arith) (ground arith)
              (ground arith) (inr (ground arith))
        | inr b ↦
            mintable t tx memo k (ground arith) (ground arith) (ground arith) (ground arith)
              (ground arith) (ground arith) (ground arith)
      ]
    ]

    Verdict-tx :
        (o : Option Tx)
        → ext.unmarshal_tx response.tx_value ≡ o
        → response.code ≡ 0
        → transfers ≡ some (t ∷ [])
        → t.amount.amount ≢ pos 0
        → min_amount <ℤ t.amount.amount
        → judge_tx ext cfg min_amount max_amount seen t.amount o ≡ some result
        → Verdict result
    unfolding judge_tx
    Verdict-tx none e c p z a h =
        rejected (ground arith) (ground arith) (λ t' tx m k. ground (arith, k.decoded))
    Verdict-tx (some tx) e c p z a h = elim (Option-cases tx.body_memo) [
      | inl n ↦ absurd (ground arith)
      | inr (m, n) ↦
          Verdict-memo tx m
            (record { succeeded = c; alone = p; nonzero = z; above = a; decoded = e; has_memo = n })
            (ground arith)
    ]

    Verdict-transfer :
        response.code ≡ 0
        → transfers ≡ some (t ∷ [])
        → judge_transfers ext cfg min_amount max_amount response
            (unjudged ext cfg min_amount max_amount response)
            (some (t ∷ []))
          ≡ some result
        → Verdict result
    unfolding judge_transfers
    Verdict-transfer c p h = elim (Bool-cases (eqb_ℤ t.amount.amount (pos 0))) [
      | inl z ↦
          rejected (ground arith) (ground arith) (λ t' tx m k. ground (arith, k.alone, k.nonzero))
      | inr z ↦ elim (Bool-cases (leb_ℤ t.amount.amount min_amount)) [
        | inl l ↦
            rejected (ground arith) (ground arith) (λ t' tx m k. ground (arith, k.alone, k.above))
        | inr l ↦
            Verdict-tx (ext.unmarshal_tx response.tx_value) refl c p (ground arith) (ground arith)
              (ground arith)
      ]
    ]

  module _ (result : ValidateTxResult) where
    Verdict-transfers :
        (o : Option (List TransferEvent))
        → transfers ≡ o
        → response.code ≡ 0
        → judge_transfers ext cfg min_amount max_amount response
            (unjudged ext cfg min_amount max_amount response)
            o
          ≡ some result
        → Verdict result
    unfolding judge_transfers
    Verdict-transfers none e c h =
        rejected (ground arith) (ground arith) (λ t' tx m k. ground (arith, k.alone))
    Verdict-transfers (some []) e c h =
        rejected (ground arith) (ground arith) (λ t' tx m k. ground (arith, k.alone))
    Verdict-transfers (some (t ∷ u ∷ ts)) e c h =
        rejected (ground arith) (ground arith) (λ t' tx m k. ground (arith, k.alone))
    Verdict-transfers (some (t ∷ [])) e c h = Verdict-transfer t result c e h

    -- A transaction is rejected exactly if it is no single transfer to the vault of more than the
    -- minimum; of the others it is refunded if its memo is invalid or its amount above the mint
    -- limit, and minted to the memo's address if neither holds; the sender and amount are the
    -- transfer's.
    pub validate_tx-Verdict :
        validate_tx_to_cosmos_multisig ext cfg min_amount max_amount response ≡ some result
        → Verdict result
    unfolding validate_tx_to_cosmos_multisig
    validate_tx-Verdict h = elim (Bool-cases (response.code == 0)) [
      | inl c ↦ Verdict-transfers transfers refl (ground arith) (ground arith)
      | inr c ↦ rejected (ground arith) (ground arith) (λ t' tx m k. ground (arith, k.succeeded))
    ]
