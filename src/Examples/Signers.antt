-- ===== src/Examples/Signers.antt =====
-- The signers in the small world.
use wpokt_validator.Base.{
  ℕ, ◌+◌, ◌≤◌, ℤ, pos, ◌≡◌, refl, Bool, true, false, Option, none, some, List, [], ◌∷◌, ◌<ℤ◌, leb_ℤ,
  ltb, length, All, arith, if◌then◌else◌, ◌++◌,
}
use wpokt_validator.Base.Bytes.{Bytes, bytes, to_lower}
use wpokt_validator.Base.Sort.Order.{IsAscending}
use wpokt_validator.Models.{Mint, confirmed, signed}
use wpokt_validator.Models.Chain.{TxResponse, Coin, Log, BurnEvent}
use wpokt_validator.ValidateTx.{ValidateTxResult}
use wpokt_validator.Effect.{
  get_tx, get_transaction_receipt, max_burn_sequence, max_invalid_mint_sequence,
}
use wpokt_validator.Effect.Run.{returned, run}
use wpokt_validator.Effect.Ensures.{Issues}
use wpokt_validator.Lifecycle.Actors.{IsBurnSignerRequest, IsMintSignerRequest}
use wpokt_validator.Sequence.{read_sequence, burn_sequence_filter, invalid_mint_sequence_filter}
use wpokt_validator.Sequence.Next.{IsBelow, read_sequence-IsFresh}
use wpokt_validator.BurnSigner
use wpokt_validator.BurnSigner.Validation.{BurnSignerRunner, validate_burn}
use wpokt_validator.BurnSigner.Validation.Sound.{IsLogged, validate_burn-IsLogged}
use wpokt_validator.BurnSigner.Validation.{validate_invalid_mint}
use wpokt_validator.BurnSigner.Validation.Refund.{IsRefundable, validate_invalid_mint-IsRefundable}
use wpokt_validator.Models.Config.{Config}
use wpokt_validator.Examples.{invalid_mint}
use wpokt_validator.SignTx.{SignRequest, or_empty}
use wpokt_validator.Common.{address_hex_from_bytes, hex_from_bytes}
use wpokt_validator.Models.{Signature}
use wpokt_validator.Examples.{payee}
use wpokt_validator.BurnSigner.Lifecycle.{burn_signer-IsBurnSignerRequest}
use wpokt_validator.MintSigner
use wpokt_validator.MintSigner.Nonce.{MintSignerRunner, pending_nonces, next_nonce}
use wpokt_validator.MintSigner.Nonce.Fresh
use wpokt_validator.MintSigner.Nonce.Fresh.{next_nonce-IsFresh}
use wpokt_validator.MintSigner.Signing.{SigningKey, sign_typed_data, sign_mint}
use mathlib.Core.List.{Permᴰ}
use wpokt_validator.Common.{encode_to_string}
use wpokt_validator.MintSigner.Signing.Threshold.{
  numbers, earlier_signers, kept_signatures, pairs_of, sign_mint-IsOrdered,
}
use wpokt_validator.MintSigner.Validation.{validate_mint}
use wpokt_validator.MintSigner.Validation.Sound.{IsBacked, validate_mint-IsBacked}
use wpokt_validator.MintSigner.Lifecycle.{mint_signer-IsMintSignerRequest}
use wpokt_validator.Examples.{ext, sdk, cfg, env, world, mint, pending_mint, burn, account}

abbrev burn_signer_runner : BurnSignerRunner
burn_signer_runner = record {
  public_key = 1 ∷ [];
  multisig_address = bytes "pokt1vault0000000000";
  cosmos_height = pos 3;
  eth_block_number = pos 3;
  vault_address = bytes "pokt1vault0000000000";
  wpokt_address = bytes "0xaa";
  minimum_amount = pos 10;
  maximum_amount = pos 9000;
}

abbrev mint_signer_runner : MintSignerRunner
mint_signer_runner = record {
  address = bytes "0x02";
  vault_address = bytes "pokt1vault0000000000";
  wpokt_address = bytes "0xaa";
  validator_count = pos 3;
  signer_threshold = pos 2;
  cosmos_height = pos 3;
  minimum_amount = pos 10;
  maximum_amount = pos 9000;
}

-- A signature of sixty-five bytes, the last of them 0.
abbrev sixty_five : Bytes
sixty_five =
    1 ∷ 1 ∷ 1 ∷ 1 ∷ 1 ∷ 1 ∷ 1 ∷ 1 ∷ 1 ∷ 1 ∷ 1 ∷ 1 ∷ 1 ∷ 1 ∷ 1 ∷ 1 ∷ 1 ∷ 1 ∷ 1 ∷ 1 ∷ 1 ∷ 1 ∷ 1 ∷ 1
    ∷ 1 ∷ 1 ∷ 1 ∷ 1 ∷ 1 ∷ 1 ∷ 1 ∷ 1 ∷ 1 ∷ 1 ∷ 1 ∷ 1 ∷ 1 ∷ 1 ∷ 1 ∷ 1 ∷ 1 ∷ 1 ∷ 1 ∷ 1 ∷ 1 ∷ 1 ∷ 1 ∷ 1
    ∷ 1 ∷ 1 ∷ 1 ∷ 1 ∷ 1 ∷ 1 ∷ 1 ∷ 1 ∷ 1 ∷ 1 ∷ 1 ∷ 1 ∷ 1 ∷ 1 ∷ 1 ∷ 1 ∷ 0 ∷ []

abbrev key : SigningKey
key = record {
  typed_data_hash = λ r a n. some (bytes "hash");
  crypto_sign = λ h. some sixty_five;
  address_hex = bytes "0x02";
  hex_to_address = λ s. s;
}

abbrev key_bytes : Bytes
key_bytes = bytes "key00000000000000000"

-- Another validator has signed.
abbrev sign_request : SignRequest
sign_request = record {
  sequence = 13;
  signatures = record { signer = payee; signature = bytes "0x33" } ∷ [];
  transaction_body = [];
  to_address = bytes "pokt1recipient000000";
  amount = record { denom = bytes "upokt"; amount = pos 5000 };
  memo = bytes "memo";
}

abbrev own_signature : Signature
own_signature = record {
  signer = or_empty (address_hex_from_bytes key_bytes);
  signature = hex_from_bytes (bytes "sig");
}

burn_signer-IsBurnSignerRequest_example :
    Issues IsBurnSignerRequest (BurnSigner.sync_txs ext sdk cfg burn_signer_runner)
burn_signer-IsBurnSignerRequest_example =
    burn_signer-IsBurnSignerRequest ext sdk cfg burn_signer_runner

mint_signer-IsMintSignerRequest_example :
    Issues IsMintSignerRequest (MintSigner.sync_txs ext key cfg mint_signer_runner)
mint_signer-IsMintSignerRequest_example =
    mint_signer-IsMintSignerRequest ext key cfg mint_signer_runner

validate_mint-IsBacked_example :
    (tx : TxResponse) × (result : ValidateTxResult) × (coin : Coin) × (env
        (get_tx mint.transaction_hash)
      ≡ some (some tx))
    × IsBacked ext cfg mint_signer_runner mint tx result coin
unfolding validate_mint run wpokt_validator.Effect.◌>>=◌ wpokt_validator.Effect.ask
    wpokt_validator.Effect.lift wpokt_validator.MintSigner.Validation.judge_mint
    wpokt_validator.ValidateTx.validate_tx_to_cosmos_multisig
    wpokt_validator.Events.parse_transfer_events wpokt_validator.Events.read_event
    wpokt_validator.Base.Bytes.equal_fold wpokt_validator.Events.find_attribute_value
    wpokt_validator.Memo.validate_memo wpokt_validator.Common.is_valid_ethereum_address
    wpokt_validator.Memo.trim wpokt_validator.Base.Bytes.trim_0x
    wpokt_validator.MintSigner.Validation.same_amount wpokt_validator.Base.Decimal.set_string
validate_mint-IsBacked_example = validate_mint-IsBacked ext cfg mint_signer_runner env mint refl

validate_burn-IsLogged_example :
    (logs : List Log) × (index : ℤ) × (log : Log) × (event : BurnEvent) × (env
        (get_transaction_receipt burn.transaction_hash)
      ≡ some logs)
    × IsLogged ext cfg burn_signer_runner burn logs index log event
unfolding validate_burn run wpokt_validator.Effect.◌>>=◌ wpokt_validator.Effect.ask
    wpokt_validator.Effect.lift wpokt_validator.BurnSigner.Validation.matches_logs
    wpokt_validator.Base.Decimal.parse_int wpokt_validator.BurnSigner.Validation.matches_log
    wpokt_validator.BurnSigner.Validation.find_log
    wpokt_validator.BurnSigner.Validation.matches_parsed
    wpokt_validator.BurnSigner.Validation.matches_event wpokt_validator.Base.Bytes.equal_fold
    wpokt_validator.Common.address_bytes_from_bech32
validate_burn-IsLogged_example = validate_burn-IsLogged ext cfg burn_signer_runner env burn refl

abbrev disabled : Config
disabled = record cfg { pocket = record cfg.pocket { mint_disabled = true } }

validate_invalid_mint-IsRefundable_example :
    (tx : TxResponse) × (result : ValidateTxResult) × (coin : Coin) × (env
        (get_tx invalid_mint.transaction_hash)
      ≡ some (some tx))
    × IsRefundable ext disabled burn_signer_runner invalid_mint tx result coin
unfolding validate_invalid_mint run wpokt_validator.Effect.◌>>=◌ wpokt_validator.Effect.ask
    wpokt_validator.Effect.lift wpokt_validator.BurnSigner.Validation.judge_refund
    wpokt_validator.BurnSigner.Validation.same_amount
    wpokt_validator.BurnSigner.Validation.same_memo
    wpokt_validator.ValidateTx.validate_tx_to_cosmos_multisig
    wpokt_validator.Events.parse_transfer_events wpokt_validator.Events.read_event
    wpokt_validator.Events.find_attribute_value wpokt_validator.Memo.validate_memo
    wpokt_validator.Memo.trim wpokt_validator.Common.is_valid_ethereum_address
    wpokt_validator.Common.bytes_from_hex wpokt_validator.Common.ensure_0x_prefix
    wpokt_validator.Base.Bytes.eqb wpokt_validator.Base.Bytes.equal_fold
    wpokt_validator.Base.Bytes.has_0x wpokt_validator.Base.Bytes.to_lower
    wpokt_validator.Base.Bytes.trim_0x wpokt_validator.Base.Decimal.set_string
validate_invalid_mint-IsRefundable_example =
    validate_invalid_mint-IsRefundable ext disabled burn_signer_runner env invalid_mint refl

next_nonce-IsFresh_example :
    (pos 4 <ℤ pos 10) × All (Fresh.IsBelow (pos 10)) (pending_nonces (pending_mint ∷ []))
unfolding next_nonce run wpokt_validator.Effect.◌>>=◌ wpokt_validator.Effect.ask
    wpokt_validator.Effect.lift wpokt_validator.MintSigner.Nonce.larger_nonce
    wpokt_validator.Base.Sort.sort_by pending_nonces wpokt_validator.MintSigner.Nonce.keep_parsed
    wpokt_validator.Base.Decimal.set_string wpokt_validator.MintSigner.Nonce.last
next_nonce-IsFresh_example =
    next_nonce-IsFresh ext mint_signer_runner (world (some (pending_mint ∷ []))) mint (pos 4)
      (pos 10) (pending_mint ∷ []) refl refl refl

read_sequence-IsFresh_example :
    (7 ≤ 13)
    × IsBelow 13 (env (max_invalid_mint_sequence (invalid_mint_sequence_filter cfg)))
    × IsBelow 13 (env (max_burn_sequence (burn_sequence_filter cfg)))
unfolding read_sequence run wpokt_validator.Effect.◌>>=◌ wpokt_validator.Sequence.find_max_sequence
    wpokt_validator.Sequence.find_max_sequence_from_invalid_mints wpokt_validator.Effect.ask
    wpokt_validator.Sequence.sequence_answer wpokt_validator.Sequence.find_max_sequence_from_burns
    wpokt_validator.Effect.lift wpokt_validator.Sequence.next_sequence
    wpokt_validator.Sequence.larger
read_sequence-IsFresh_example =
    read_sequence-IsFresh cfg env (bytes "pokt1vault0000000000") account 13 refl (omega arith)
      (omega arith) refl

abbrev signed_once : Mint
signed_once = record mint {
  status = confirmed;
  signers = bytes "0x03" ∷ [];
  signatures = bytes "0x33" ∷ [];
}

abbrev signed_twice : Mint
signed_twice = record signed_once {
  status = signed;
  signers = bytes "0x02" ∷ bytes "0x03" ∷ [];
  signatures =
      bytes
        "0x010101010101010101010101010101010101010101010101010101010101010101010101010101010101010101010101010101010101010101010101010101011b"
      ∷ bytes "0x33"
      ∷ [];
}

sign_mint-IsOrdered_example :
    (signature : Bytes) × (run env (sign_typed_data key mint.recipient_address (pos 5000) (pos 10))
      ≡ returned signature)
    × Permᴰ (pairs_of signed_twice.signers signed_twice.signatures) (
        pairs_of
          (earlier_signers env key signed_once ++ to_lower key.address_hex ∷ [])
          (kept_signatures env key signed_once ++ (bytes "0x" ++ encode_to_string signature) ∷ []))
    × (length signed_twice.signers ≡ length (earlier_signers env key signed_once) + 1)
    × (length signed_twice.signatures ≡ length signed_twice.signers)
    × IsAscending ltb (numbers env key signed_twice.signers)
    × (signed ≡ (if leb_ℤ (pos 2) (pos 2) then signed else confirmed))
unfolding sign_mint run wpokt_validator.Effect.◌>>=◌
    wpokt_validator.MintSigner.Signing.sign_typed_data wpokt_validator.Effect.lift
    wpokt_validator.MintSigner.Signing.signature_of wpokt_validator.MintSigner.Signing.must
    wpokt_validator.MintSigner.Signing.bump_last
    wpokt_validator.MintSigner.Signing.sort_signers_and_signatures
    wpokt_validator.MintSigner.Signing.pair_up wpokt_validator.MintSigner.Signing.signed_mint
    wpokt_validator.Base.Sort.sort_by wpokt_validator.Base.Bytes.to_lower
    wpokt_validator.Common.encode_to_string wpokt_validator.Base.Sort.insert_by
sign_mint-IsOrdered_example =
    sign_mint-IsOrdered env key (pos 2) signed_once signed_twice mint.recipient_address (pos 5000)
      (pos 10) refl
