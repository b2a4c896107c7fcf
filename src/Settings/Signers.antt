-- ===== src/Settings/Signers.antt =====
-- app/signer.go: the validator's keys on the two chains, from the settings.
use Prim.Native.Nat.{suc}
use wpokt_validator.Base.{
  ℕ, Bool, true, false, not, ◌&&◌, ◌||◌, Option, none, some, List, [], ◌∷◌, length, ltb, ◌==◌,
  if◌then◌else◌,
}
use wpokt_validator.Base.Bytes.{Bytes, eqb, equal_fold}
use wpokt_validator.Base.Sort.{sort_by}
use wpokt_validator.Models.Config.{EthereumConfig, CosmosConfig}
use wpokt_validator.Common.{bech32_from_bytes, decode_string}
use wpokt_validator.External.{External}
use wpokt_validator.Effect.{Program, ret, fail, ◌>>=◌, ◌>>◌, lift, require}
use wpokt_validator.Keys.Packages.{Crypto, KmsClient}
use wpokt_validator.Keys.{GcpKmsSigner, MnemonicSigner, new_gcp_kms_signer, new_mnemonic_signer}

-- What the packages make of keys: the text of a private key's address, the address of a public key
-- of cosmos-sdk, its decoding, and the address of a threshold key of public keys; and the client
-- of the key management service, if it can be made.
pub record Accounts : Type 0 where
  pub crypto : Crypto
  pub kms : Option KmsClient
  pub private_key_address : Bytes → Option Bytes
  pub key_address : Bytes → Bytes
  pub unmarshal_amino : Bytes → Option Bytes
  pub threshold_address : ℕ → List Bytes → Bytes

pub data Signer : Type 0 where
  gcp_kms_signer : GcpKmsSigner → Signer
  mnemonic_signer : MnemonicSigner → Signer

abbrev pub cosmos_public_key : Signer → Bytes
cosmos_public_key (gcp_kms_signer x) = x.cosmos_pub_key
cosmos_public_key (mnemonic_signer x) = x.cosmos_pub_key

pub record PocketSigner : Type 0 where
  pub signer : Signer
  pub address : Bytes
  pub signer_index : ℕ
  pub multisig : List Bytes
  pub multisig_address : Bytes

-- `HexToECDSA` and the address of the key
unfoldable pub get_ethereum_signer : Accounts → EthereumConfig → Program Bytes
get_ethereum_signer accounts c = lift (accounts.private_key_address c.private_key)

-- The mnemonic goes first.
unfoldable pub create_pocket_signer : Accounts → CosmosConfig → Program Signer
create_pocket_signer accounts c =
    if eqb c.mnemonic [] && eqb c.gcp_kms_key_name []
    then fail
    else if not (eqb c.mnemonic [])
    then (do x ← new_mnemonic_signer accounts.crypto c.mnemonic; ret (mnemonic_signer x))
    else (do
      client ← lift accounts.kms
      x ← new_gcp_kms_signer accounts.crypto client c.gcp_kms_key_name
      ret (gcp_kms_signer x))

abbrev pub cosmos_public_key_length : ℕ
cosmos_public_key_length = 33

-- `CosmosPublicKeyFromHex` of common/cosmos.go
unfoldable pub cosmos_public_key_from_hex : Accounts → Bytes → Program Bytes
cosmos_public_key_from_hex accounts s = do
  b ← lift (decode_string s)
  require (length b == cosmos_public_key_length)
  lift (accounts.unmarshal_amino b)

-- The keys, and the last index of the signer's.
pub record Found : Type 0 where
  pub keys : List Bytes
  pub index : Option ℕ

unfoldable pub later_or : Option ℕ → Bool → ℕ → Option ℕ
later_or none b i = if b then some i else none
later_or (some j) b i = some j

unfoldable pub find_signer : Accounts → Bytes → List Bytes → ℕ → Program Found
unfolding cosmos_public_key_from_hex later_or
find_signer accounts key [] i = ret (record { keys = []; index = none })
find_signer accounts key (pk ∷ pks) i = do
  p_key ← cosmos_public_key_from_hex accounts pk
  rest ← find_signer accounts key pks (suc i)
  ret (record { keys = p_key ∷ rest.keys; index = later_or rest.index (eqb p_key key) i })

-- `bytes.Compare(a, b) < 0`
unfoldable pub less : Bytes → Bytes → Bool
less [] [] = false
less [] (d ∷ t) = true
less (c ∷ s) [] = false
less (c ∷ s) (d ∷ t) = ltb c d || (c == d && less s t)

unfoldable pub or_empty : Option Bytes → Bytes
or_empty none = []
or_empty (some s) = s

unfoldable pub get_pocket_signer_and_multisig :
    External → Accounts → CosmosConfig → Program PocketSigner
unfolding create_pocket_signer find_signer less or_empty
get_pocket_signer_and_multisig ext accounts c = do
  signer ← create_pocket_signer accounts c
  let key = cosmos_public_key signer
  address ← lift (bech32_from_bytes ext c.bech32_prefix (accounts.key_address key))
  found ← find_signer accounts key c.multisig_public_keys 0
  index ← lift found.index
  require
      (not (c.multisig_threshold == 0 || ltb (length c.multisig_public_keys) c.multisig_threshold))
  let keys = sort_by (λ a b. less (accounts.key_address a) (accounts.key_address b)) found.keys
  let threshold_address = accounts.threshold_address c.multisig_threshold keys
  let multisig_address = or_empty (bech32_from_bytes ext c.bech32_prefix threshold_address)
  require (equal_fold multisig_address c.multisig_address)
  ret (record {
    signer = signer;
    address = address;
    signer_index = index;
    multisig = keys;
    multisig_address = multisig_address;
  })
