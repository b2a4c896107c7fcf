-- ===== src/SignTx/Reads.antt =====
-- The requests of SignTx, cosmos/tx_sign.go.
use wpokt_validator.Base.{ℤ, Option, none, some, List, [], ◌∷◌}
use wpokt_validator.Base.Bytes.{Bytes}
use wpokt_validator.Models.{Signature}
use wpokt_validator.Models.Config.{CosmosConfig}
use wpokt_validator.Models.Chain.{Coin}
use wpokt_validator.External.{External}
use wpokt_validator.External.Sdk.{Sdk, SignatureData, single, multi, SignatureV2, SignerData}
use wpokt_validator.Effect.{Request, get_account}
use wpokt_validator.Effect.Ensures.{Issues}
use wpokt_validator.Lifecycle.Rules.{rules}
use wpokt_validator.SignTx.{
  SignRequest, sign_tx, check_unsigned, body_of, new_send_tx, coin_sub, new_coin,
  sign_with_priv_key, earlier_signatures, final_signature, final_signatures,
}

module _ {P : Request → Type 0} where
  coin_sub-Issues : (a b : Coin) → Issues P (coin_sub a b)
  unfolding coin_sub
  coin_sub-Issues a b = search rules

  pub new_coin-Issues :
      (ext : External) (denom : Bytes) (amount : ℤ) → Issues P (new_coin ext denom amount)
  unfolding new_coin
  new_coin-Issues ext denom amount = search rules

  final_signature-Issues :
      (ext : External) (sdk : Sdk) (cfg : CosmosConfig) (public_key : Bytes) (key : Option Bytes)
      (d : SignatureData)
      → Issues P (final_signature ext sdk cfg public_key key d)
  unfolding final_signature
  final_signature-Issues ext sdk cfg public_key none d = search rules
  final_signature-Issues ext sdk cfg public_key (some key) (single s) = search rules
  final_signature-Issues ext sdk cfg public_key (some key) multi = search rules

module _ {P : Request → Type 0} (reads : (address : Bytes) → P (get_account address))
    (ext : External) (sdk : Sdk) (cfg : CosmosConfig) (public_key : Bytes) where
  new_send_tx-Issues :
      (from to : Bytes) (amount : Coin) (memo : Bytes) (fee : Coin)
      → Issues P (new_send_tx ext sdk cfg public_key from to amount memo fee)
  unfolding new_send_tx
  new_send_tx-Issues from to amount memo fee = search (rules, coin_sub-Issues) depth 9

  check_unsigned-Issues :
      (sigs : List Signature) → Issues P (check_unsigned ext sdk cfg public_key sigs)
  unfolding check_unsigned
  check_unsigned-Issues [] = search rules
  check_unsigned-Issues (sig ∷ sigs) =
      let rest : Issues P (check_unsigned ext sdk cfg public_key sigs) =
        check_unsigned-Issues sigs in
      search rules depth 7

  body_of-Issues :
      (sequence : _) (sigs : List Signature) (body to : Bytes) (amount : Coin)
      (memo address : Bytes)
      → Issues P (
          body_of ext sdk cfg public_key
            (record {
              sequence = sequence;
              signatures = sigs;
              transaction_body = body;
              to_address = to;
              amount = amount;
              memo = memo;
            })
            address)
  unfolding body_of
  body_of-Issues sequence sigs [] to amount memo address =
      search (rules, new_coin-Issues, new_send_tx-Issues)
  body_of-Issues sequence sigs (c ∷ s) to amount memo address = search rules

  request_body-Issues :
      (request : SignRequest) (address : Bytes)
      → Issues P (body_of ext sdk cfg public_key request address)
  request_body-Issues request address =
      body_of-Issues request.sequence request.signatures request.transaction_body request.to_address
        request.amount request.memo address

  sign_with_priv_key-Issues :
      (sd : SignerData) (b : sdk.TxBuilder) (n : _)
      → Issues P (sign_with_priv_key ext sdk cfg public_key sd b n)
  unfolding sign_with_priv_key
  sign_with_priv_key-Issues sd b n = search rules depth 7

  earlier_signatures-Issues :
      (sigs : List Signature) (b : sdk.TxBuilder)
      → Issues P (earlier_signatures ext sdk cfg public_key sigs b)
  unfolding earlier_signatures
  earlier_signatures-Issues [] b = search rules
  earlier_signatures-Issues (sig ∷ sigs) b = search rules

  final_signatures-Issues :
      (sigs : List SignatureV2) → Issues P (final_signatures ext sdk cfg public_key sigs)
  unfolding final_signatures
  final_signatures-Issues [] = search rules
  final_signatures-Issues (sig ∷ sigs) =
      let rest : Issues P (final_signatures ext sdk cfg public_key sigs) =
        final_signatures-Issues sigs in
      search (rules, final_signature-Issues) depth 7

  pub sign_tx-Issues : (request : SignRequest) → Issues P (sign_tx ext sdk cfg public_key request)
  unfolding sign_tx
  sign_tx-Issues request =
      search
        (
          rules, reads, check_unsigned-Issues, request_body-Issues, sign_with_priv_key-Issues,
          earlier_signatures-Issues, final_signatures-Issues,
        )
        depth 30
