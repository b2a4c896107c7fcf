-- ===== src/Keys/Packages.antt =====
-- What the signers of common/ call: go-ethereum, btcec, cosmos-sdk, `encoding/asn1` and the client
-- of the key management service.
use wpokt_validator.Base.{ℤ, Bool, Option}
use wpokt_validator.Base.Bytes.{Bytes}

-- `struct{ R, S *big.Int }`
pub record Numbers : Type 0 where
  pub r : Option ℤ
  pub s : Option ℤ

pub record Crypto : Type 0 where
  pub keccak256 : Bytes → Bytes
  pub sha256 : Bytes → Bytes
  -- `crypto.Sign` with a private key, `crypto.Ecrecover` and `crypto.UnmarshalPubkey`
  pub sign : Bytes → Bytes → Option Bytes
  pub ecrecover : Bytes → Bytes → Option Bytes
  pub unmarshal_pubkey : Bytes → Option Bytes
  pub pubkey_to_address : Bytes → Bytes
  -- `btcecdsa.RecoverCompact`, as the uncompressed key
  pub recover_compact : Bytes → Bytes → Option Bytes
  -- `asn1.Unmarshal` into numbers; `ModNScalar.IsOverHalfOrder`; `(*Signature).Verify`
  pub unmarshal_signature : Bytes → Option Numbers
  pub is_over_half_order : Bytes → Bool
  pub verify : Bytes → Bytes → Bytes → Bool
  -- `dcrecSecp256k1.ParsePubKey`, compressed
  pub parse_pub_key : Bytes → Option Bytes
  -- The keys of a mnemonic, and the public ones of them
  pub ethereum_private_key : Bytes → Option Bytes
  pub cosmos_private_key : Bytes → Option Bytes
  pub eth_public_key : Bytes → Bytes
  pub cosmos_public_key : Bytes → Bytes
  pub cosmos_sign : Bytes → Bytes → Option Bytes
  -- The PEM block of a text, and the algorithm and the key of an ASN.1 public key
  pub pem_decode : Bytes → Option Bytes
  pub unmarshal_key : Bytes → Option (Bool × Bytes)

-- The answers of `GCPKeyManagementClient`: the algorithm of a key is the one expected or not.
pub record KmsClient : Type 0 where
  pub is_secp256k1_sha256 : Bytes → Option Bool
  pub get_public_key : Bytes → Option Bytes
  pub asymmetric_sign : Bytes → Bytes → Option Bytes
