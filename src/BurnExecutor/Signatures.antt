-- ===== src/BurnExecutor/Signatures.antt =====
-- `ValidateSignaturesAndAddMultiSignatureToTxConfig` of cosmos/executor.go, and
-- `ValidateSignature` of cosmos/util/signature.go.
pub mod Threshold
use wpokt_validator.Base.{
  ℕ, Bool, true, false, not, ◌||◌, Option, none, some, List, [], ◌∷◌, length, ltb, ◌==◌,
  if◌then◌else◌,
}
use wpokt_validator.Base.Bytes.{Bytes, eqb}
use wpokt_validator.Models.Config.{Config}
use wpokt_validator.Models.Chain.{Account}
use wpokt_validator.External.Sdk.{Sdk, SignatureV2, SignerData}
use wpokt_validator.Effect.{get_account, Program, ret, fail, panic, ◌>>=◌, ◌>>◌, ask, lift, require}

-- The signer's multisig key is its address, its threshold and its keys.
pub record BurnExecutorRunner : Type 0 where
  pub multisig_address : Bytes
  pub multisig_threshold : ℕ
  pub multisig_keys : List Bytes
  pub wpokt_address : Bytes
  pub vault_address : Bytes

-- `pubKeyExists`, and the look-up in `uniquePubKeys`
unfoldable pub contains : Bytes → List Bytes → Bool
contains key [] = false
contains key (k ∷ keys) = if eqb k key then true else contains key keys

-- `sig.PubKey.Bytes()`, which panics at a nil key.
unfoldable pub key_of : Option Bytes → Program Bytes
key_of none = panic
key_of (some key) = ret key

module _ (sdk : Sdk) (cfg : Config) (x : BurnExecutorRunner) where
  open sdk use {TxBuilder}

  unfoldable pub validate_signature : SignatureV2 → ℕ → ℕ → TxBuilder → Program (Unit {0})
  validate_signature sig account_number sequence builder = do
    key ← lift sig.pub_key
    lift (
        sdk.verify_signature sig
          (record {
            chain_id = cfg.pocket.chain_id;
            account_number = account_number;
            sequence = sequence;
            pub_key = key;
          })
          builder)

  -- The loop over the signatures: the keys seen, and the multisig so far.
  unfoldable pub collect :
      ℕ
      → ℕ
      → TxBuilder
      → List SignatureV2
      → List Bytes
      → List SignatureV2
      → Program (List SignatureV2)
  collect account_number sequence builder [] seen multisig = ret multisig
  collect account_number sequence builder (sig ∷ sigs) seen multisig = do
    key ← key_of sig.pub_key
    require (not (contains key seen))
    require (contains key x.multisig_keys)
    validate_signature sig account_number sequence builder
    multisig' ← lift (sdk.add_signature sig multisig)
    collect account_number sequence builder sigs (key ∷ seen) multisig'

  unfoldable pub add_multisignature : ℕ → TxBuilder → Program TxBuilder
  add_multisignature sequence builder = do
    sigs ← lift (sdk.get_signatures builder)
    require (not (length sigs == 0 || ltb (length sigs) x.multisig_threshold))
    answer ← ask (get_account x.multisig_address)
    account ← lift answer
    multisig ← collect account.account_number sequence builder sigs [] []
    lift (sdk.set_multisig multisig sequence builder)
