-- ===== src/SignTx/Signers.antt =====
-- SignTx of cosmos/tx_sign.go: the signers of its result.
use wpokt_validator.Base.{ℕ, ◌≡◌, false, some, List, [], ◌∷◌, ◌++◌, All}
use wpokt_validator.Base.Bytes.{Bytes, eqb}
use wpokt_validator.Models.{Signature}
use wpokt_validator.Models.Config.{CosmosConfig}
use wpokt_validator.External.{External}
use wpokt_validator.External.Sdk.{Sdk, single, SignatureV2}
use wpokt_validator.Common.{
  bytes_from_address_hex, address_hex_from_bytes, hex_from_bytes, address_bytes_from_bech32,
}
use wpokt_validator.Models.Chain.{Account}
use wpokt_validator.Effect.{get_account}
use wpokt_validator.Effect.Run.{Environment, returned, run}
use wpokt_validator.SignTx.{SignRequest, or_empty, body_of, earlier_signatures}

module _ (env : Environment) (ext : External) (sdk : Sdk) (cfg : CosmosConfig)
    (public_key : Bytes) where
  -- The signer is an address, and not that of the key.
  pub record IsOther (sig : Signature) : Type 0 where
    pub address : Bytes
    pub parsed : bytes_from_address_hex sig.signer ≡ some address
    pub other : eqb address (sdk.key_address public_key) ≡ false

  -- The stored form of a transaction's signature: its own bytes, and the address of its key.
  pub record IsText (v : SignatureV2) (sig : Signature) : Type 0 where
    pub key : Bytes
    pub keyed : v.pub_key ≡ some key
    pub raw : Bytes
    pub is_single : v.signature_data ≡ single raw
    pub signer : sig.signer ≡ or_empty (address_hex_from_bytes (sdk.key_address key))
    pub signature : sig.signature ≡ hex_from_bytes raw

  abbrev pub AreTexts : List SignatureV2 → List Signature → Type 0
  AreTexts [] [] = Unit
  AreTexts [] (sig ∷ sigs) = ⊥
  AreTexts (v ∷ vs) [] = ⊥
  AreTexts (v ∷ vs) (sig ∷ sigs) = IsText v sig × AreTexts vs sigs

  -- The key's signature of the builder's transaction, at the account number and the sequence.
  pub record IsSigned (builder : sdk.TxBuilder) (account_number sequence : ℕ) (sig : SignatureV2)
      : Type 0 where
    pub message : Bytes
    pub encoded :
        sdk.get_sign_bytes
          (record {
            chain_id = cfg.chain_id;
            account_number = account_number;
            sequence = sequence;
            pub_key = public_key;
          })
          builder
        ≡ some message
    pub raw : Bytes
    pub signed : sdk.cosmos_sign message ≡ some raw
    pub whole :
        sig ≡ record { pub_key = some public_key; signature_data = single raw; sequence = sequence }

  -- A transaction of the request's body, with its earlier signatures and the key's.
  pub record IsNextSignature (request : SignRequest) (out : Bytes × List Signature) : Type 0 where
    pub unsigned : All IsOther request.signatures
    pub vault : Bytes
    pub vault_parsed :
        address_bytes_from_bech32 ext cfg.bech32_prefix cfg.multisig_address ≡ some vault
    pub body : Bytes
    pub body_made : run env (body_of ext sdk cfg public_key request vault) ≡ returned body
    pub builder : sdk.TxBuilder
    pub wrapped : sdk.wrap_tx_builder cfg.bech32_prefix body ≡ some builder
    pub account : Account
    pub answered : env (get_account cfg.multisig_address) ≡ some account
    pub earlier : List SignatureV2
    pub found :
        run env (earlier_signatures ext sdk cfg public_key request.signatures builder)
        ≡ returned earlier
    pub sig : SignatureV2
    pub made : IsSigned builder account.account_number request.sequence sig
    pub complete : sdk.TxBuilder
    pub set : sdk.set_signatures (earlier ++ sig ∷ []) builder ≡ some complete
    pub stored_body : sdk.tx_json complete ≡ some out.0
    pub stored : AreTexts (earlier ++ sig ∷ []) out.1
