-- ===== src/SignTx.antt =====
-- cosmos/tx_sign.go, and NewSendTx, WrapTxBuilder and SignWithPrivKey of cosmos/util: one
-- signature on a transaction from the vault.
pub mod Reads
pub mod Signers
use wpokt_validator.Base.{
  ℕ, ℤ, pos, Bool, true, false, not, ◌||◌, Option, none, some, List, [], ◌∷◌, ◌++◌, ◌-ℤ◌, ltb_ℤ,
  eqb_ℤ, to_word64, if◌then◌else◌,
}
use wpokt_validator.Base.Bytes.{Bytes, eqb}
use wpokt_validator.Models.{Signature}
use wpokt_validator.Models.Config.{CosmosConfig}
use wpokt_validator.Models.Chain.{Coin, Account}
use wpokt_validator.External.{External}
use wpokt_validator.External.Sdk.{
  Sdk, SignatureData, single, multi, SignatureV2, SignerData, SendMessage,
}
use wpokt_validator.Common.{
  bytes_from_address_hex, address_hex_from_bytes, hex_from_bytes, address_bytes_from_bech32,
  bech32_from_bytes,
}
use wpokt_validator.Effect.{get_account, Program, ret, fail, panic, ◌>>=◌, ◌>>◌, ask, lift, require}

abbrev pub send_gas_limit : ℕ
send_gas_limit = 200000

-- `sdk.NewCoin` panics at an invalid denomination and at a negative amount.
unfoldable pub new_coin : External → Bytes → ℤ → Program Coin
new_coin ext denom amount =
    if not (ext.is_valid_denom denom) || ltb_ℤ amount (pos 0)
    then panic
    else ret (record { denom = denom; amount = amount })

-- `Coin.Sub` panics where the denominations differ or the difference is negative.
unfoldable pub coin_sub : Coin → Coin → Program Coin
coin_sub a b =
    if not (eqb a.denom b.denom) || ltb_ℤ a.amount b.amount
    then panic
    else ret (record a { amount = a.amount -ℤ b.amount })

abbrev pub or_empty : Option Bytes → Bytes
or_empty none = []
or_empty (some s) = s

-- `bytes.Equal(user, s)` for one of the signers
unfoldable pub is_tx_signer : Bytes → List Bytes → Bool
is_tx_signer user [] = false
is_tx_signer user (s ∷ signers) = if eqb user s then true else is_tx_signer user signers

-- What the signing of one transaction takes.
pub record SignRequest : Type 0 where
  pub sequence : ℕ
  pub signatures : List Signature
  pub transaction_body : Bytes
  pub to_address : Bytes
  pub amount : Coin
  pub memo : Bytes

module _ (ext : External) (sdk : Sdk) (cfg : CosmosConfig) (public_key : Bytes) where
  open sdk use {TxBuilder}

  -- The amount that is sent is the coin less the fee.
  unfoldable pub new_send_tx : Bytes → Bytes → Coin → Bytes → Coin → Program Bytes
  new_send_tx from_addr to_addr amount_including_fees memo fee_amount = do
    final_amount ← coin_sub amount_including_fees fee_amount
    from_address ← lift (bech32_from_bytes ext cfg.bech32_prefix from_addr)
    to_address ← lift (bech32_from_bytes ext cfg.bech32_prefix to_addr)
    lift (
        sdk.encode_send cfg.bech32_prefix (record {
          from_address = from_address;
          to_address = to_address;
          amount = final_amount;
          memo = memo;
          fee = fee_amount;
          gas_limit = send_gas_limit;
        }))

  -- The check of the signatures that are stored: each signer parses and is another one.
  unfoldable pub check_unsigned : List Signature → Program (Unit {0})
  check_unsigned [] = ret tt
  check_unsigned (sig ∷ signatures) = do
    signer_addr ← lift (bytes_from_address_hex sig.signer)
    require (not (eqb signer_addr (sdk.key_address public_key)))
    check_unsigned signatures

  -- The stored body, or a new one.
  unfoldable pub body_of : SignRequest → Bytes → Program Bytes
  body_of request multisig_address = elim request.transaction_body [
    | [] ↦ (do
      fee ← new_coin ext cfg.coin_denom (pos (to_word64 cfg.tx_fee))
      new_send_tx multisig_address request.to_address request.amount request.memo fee)
    | c ∷ s ↦ ret (c ∷ s)
  ]

  unfoldable pub sign_with_priv_key : SignerData → TxBuilder → ℕ → Program SignatureV2
  sign_with_priv_key signer_data builder acc_seq = do
    msg ← lift (sdk.get_sign_bytes signer_data builder)
    signature ← lift (sdk.cosmos_sign msg)
    ret (record {
      pub_key = some public_key;
      signature_data = single signature;
      sequence = acc_seq;
    })

  -- The signatures in the body, unless the document has none.
  unfoldable pub earlier_signatures : List Signature → TxBuilder → Program (List SignatureV2)
  earlier_signatures [] builder = ret []
  earlier_signatures (sig ∷ signatures) builder = lift (sdk.get_signatures builder)

  -- `sig.PubKey.Address()` panics at a nil key, and the type assertion at a signature that is no
  -- single one.
  unfoldable pub final_signature : Option Bytes → SignatureData → Program Signature
  final_signature none signature_data = panic
  final_signature (some key) (single signature) = ret (record {
    signer = or_empty (address_hex_from_bytes (sdk.key_address key));
    signature = hex_from_bytes signature;
  })
  final_signature (some key) multi = panic

  unfoldable pub final_signatures : List SignatureV2 → Program (List Signature)
  final_signatures [] = ret []
  final_signatures (sig ∷ sigs) = do
    first ← final_signature sig.pub_key sig.signature_data
    rest ← final_signatures sigs
    ret (first ∷ rest)

  unfoldable pub sign_tx : SignRequest → Program (Bytes × List Signature)
  sign_tx request = do
    check_unsigned request.signatures
    multisig_address ← lift (address_bytes_from_bech32 ext cfg.bech32_prefix cfg.multisig_address)
    body ← body_of request multisig_address
    builder ← lift (sdk.wrap_tx_builder cfg.bech32_prefix body)
    signers ← lift (sdk.get_signers builder)
    require (is_tx_signer multisig_address signers)
    answer ← ask (get_account cfg.multisig_address)
    account ← lift answer
    sig ←
        sign_with_priv_key
          (record {
            chain_id = cfg.chain_id;
            account_number = account.account_number;
            sequence = request.sequence;
            pub_key = public_key;
          })
          builder request.sequence
    earlier ← earlier_signatures request.signatures builder
    signed ← lift (sdk.set_signatures (earlier ++ sig ∷ []) builder)
    tx_body ← lift (sdk.tx_json signed)
    final ← final_signatures (earlier ++ sig ∷ [])
    ret (tx_body, final)
