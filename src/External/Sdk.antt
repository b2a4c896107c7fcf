-- ===== src/External/Sdk.antt =====
-- The transaction builder and the keys of cosmos-sdk, as parameters.
use wpokt_validator.Base.{ℕ, Option, List}
use wpokt_validator.Base.Bytes.{Bytes}
use wpokt_validator.Models.Chain.{Coin}

-- `signingtypes.SignatureData`: a single signature, or that of a multisig.
pub data SignatureData : Type 0 where
  single : Bytes → SignatureData
  multi : SignatureData

-- `signingtypes.SignatureV2`, with the bytes of its public key, unless that is nil.
pub record SignatureV2 : Type 0 where
  pub pub_key : Option Bytes
  pub signature_data : SignatureData
  pub sequence : ℕ

-- `authsigning.SignerData`
pub record SignerData : Type 0 where
  pub chain_id : Bytes
  pub account_number : ℕ
  pub sequence : ℕ
  pub pub_key : Bytes

-- `banktypes.MsgSend` with the memo, the fee and the gas limit of its transaction.
pub record SendMessage : Type 0 where
  pub from_address : Bytes
  pub to_address : Bytes
  pub amount : Coin
  pub memo : Bytes
  pub fee : Coin
  pub gas_limit : ℕ

pub record Sdk : Type 1 where
  pub TxBuilder : Type 0
  -- Setting a message, encoded as JSON.
  pub encode_send : Bytes → SendMessage → Option Bytes
  -- `TxJSONDecoder` and `WrapTxBuilder`, for a bech32 prefix
  pub wrap_tx_builder : Bytes → Bytes → Option TxBuilder
  pub get_signers : TxBuilder → Option (List Bytes)
  pub get_signatures : TxBuilder → Option (List SignatureV2)
  pub set_signatures : List SignatureV2 → TxBuilder → Option TxBuilder
  -- A multisig signature of the threshold key over the given ones.
  pub set_multisig : List SignatureV2 → ℕ → TxBuilder → Option TxBuilder
  pub tx_json : TxBuilder → Option Bytes
  pub tx_bytes : TxBuilder → Option Bytes
  -- `GetSignBytesAdapter`, `common.Signer.CosmosSign` and `VerifySignature`
  pub get_sign_bytes : SignerData → TxBuilder → Option Bytes
  pub cosmos_sign : Bytes → Option Bytes
  pub verify_signature : SignatureV2 → SignerData → TxBuilder → Option (Unit {0})
  -- `multisigtypes.AddSignatureV2`
  pub add_signature : SignatureV2 → List SignatureV2 → Option (List SignatureV2)
  -- `PubKey.Address().Bytes()`
  pub key_address : Bytes → Bytes
