-- ===== src/Keys.antt =====
-- common/gcp_kms_signer.go and common/mnemonic_signer.go: the two kinds of key that sign for the
-- validator. The cryptographic packages and the key management service are parameters.
pub mod Packages
pub mod Bounds
use Prim.Native.Nat.{zero, suc}
use wpokt_validator.Base.{
  ℕ, ℤ, pos, negsuc, pos_part, neg_part, ◌+◌, ◌*◌, ◌/◌, ◌%◌, ◌^◌, Bool, true, false, ◌||◌, ◌&&◌,
  not, Option, none, some, List, [], ◌∷◌, ◌++◌, length, ltb, leb, ◌==◌, if◌then◌else◌, ◌-◌, drop,
}
use wpokt_validator.Base.Bytes.{Bytes, eqb}
use wpokt_validator.Effect.{Program, ret, fail, panic, ◌>>=◌, ◌>>◌, lift, require}
use wpokt_validator.Keys.Packages.{Crypto, KmsClient, Numbers}

unfoldable pub zeros : ℕ → Bytes
zeros zero = []
zeros (suc n) = 0 ∷ zeros n

-- `(*big.Int).FillBytes` into a width: the big-endian bytes of an absolute value.
unfoldable pub fill_bytes : ℕ → ℕ → Bytes
fill_bytes zero n = []
fill_bytes (suc width) n = fill_bytes width (n / 256) ++ (n % 256 ∷ [])

unfoldable pub magnitude : Option ℤ → ℕ
magnitude none = 0
magnitude (some z) = pos_part z + neg_part z

-- No byte, or more than 32 of them.
unfoldable pub is_denied : ℕ → Bool
is_denied n = n == 0 || leb (2 ^ 256) n

-- `v += 27` for a byte.
unfoldable pub add_27 : ℕ → ℕ
add_27 v = (v + 27) % 256

-- Changing the byte at an index where a test holds for it; without such a byte the test panics.
unfoldable pub bump_at : ℕ → (ℕ → Bool) → Bytes → Program Bytes
unfolding add_27
bump_at i test [] = panic
bump_at zero test (v ∷ s) = ret ((if test v then add_27 v else v) ∷ s)
bump_at (suc i) test (b ∷ s) = do t ← bump_at i test s; ret (b ∷ t)

-- `common.BytesToHash`: the last 32 bytes, or the bytes after zeros.
unfoldable pub bytes_to_hash : Bytes → Bytes
bytes_to_hash b = let n = length b in if leb 32 n then drop (n - 32) b else zeros (32 - n) ++ b

-- A digest is signed as it is, and other data by its digest.
unfoldable pub digest_of : (Bytes → Bytes) → Bytes → Bytes
unfolding bytes_to_hash
digest_of hash data_ = bytes_to_hash (if length data_ == 32 then data_ else hash data_)

-- `copy(padded[32-len(b):], b)` of the bytes of a number: a longer number panics, as the nil does.
unfoldable pub padded : Option ℤ → Program Bytes
unfolding fill_bytes magnitude
padded none = panic
padded (some z) =
    if ltb (magnitude (some z)) (2 ^ 256) then ret (fill_bytes 32 (magnitude (some z))) else panic

pub record GcpKmsSigner : Type 0 where
  pub client : KmsClient
  pub key_name : Bytes
  pub eth_address : Bytes
  pub cosmos_pub_key : Bytes

pub record MnemonicSigner : Type 0 where
  pub eth_address : Bytes
  pub cosmos_pub_key : Bytes
  pub eth_priv_key : Bytes
  pub cosmos_priv_key : Bytes

unfoldable pub found_signature : Bool × Option Bytes → Program Bytes
found_signature (true, sig) = fail
found_signature (false, none) = fail
found_signature (false, some sig) = ret sig

module _ (crypto : Crypto) where
  -- The address of a key of 65 bytes; `bytes[1:]` panics without a first byte.
  unfoldable pub get_eth_addr : Bytes → Program Bytes
  get_eth_addr [] = panic
  get_eth_addr (b ∷ key) = ret (drop 12 (crypto.keccak256 key))

  -- What is recovered with one id: an error, the address, or another one.
  unfoldable pub try_id :
      ℕ
      → Bytes
      → Bytes
      → Option Bytes
      → (Bool → Program (Bool × Option Bytes))
      → Program (Bool × Option Bytes)
  unfolding get_eth_addr
  try_id id rs address none next = next true
  try_id id rs address (some key) next = do
    addr ← get_eth_addr key
    if eqb addr address then ret (false, some (rs ++ (id ∷ []))) else next false

  -- The loop over the two recovery ids, with the last error and the signature found.
  unfoldable pub try_ids : List ℕ → Bytes → Bytes → Bytes → Bool → Program (Bool × Option Bytes)
  unfolding try_id
  try_ids [] hash rs address recover_err = ret (recover_err, none)
  try_ids (id ∷ ids) hash rs address recover_err =
      try_id id rs address (crypto.recover_compact ((id + 27) ∷ rs) hash)
        (try_ids ids hash rs address)

  unfoldable pub eth_sign_hash : Bytes → KmsClient → Bytes → Bytes → Program Bytes
  unfolding magnitude is_denied fill_bytes try_ids found_signature bump_at
  eth_sign_hash hash client key_name address = do
    signature ← lift (client.asymmetric_sign key_name hash)
    params ← lift (crypto.unmarshal_signature signature)
    let r = magnitude params.r
    let s = magnitude params.s
    require (not (is_denied r || is_denied s))
    found ← try_ids (0 ∷ 1 ∷ []) hash (fill_bytes 32 r ++ fill_bytes 32 s) address false
    final_sig ← found_signature found
    recovered ← lift (crypto.ecrecover hash final_sig)
    key ← lift (crypto.unmarshal_pubkey recovered)
    require (eqb (crypto.pubkey_to_address key) address)
    bump_at 64 (λ v. ltb v 4) final_sig

  unfoldable pub signature_from_bytes : Bytes → Program Bytes
  signature_from_bytes sig_str = do
    require (length sig_str == 64)
    require (not (crypto.is_over_half_order (drop 32 sig_str)))
    ret sig_str

  unfoldable pub cosmos_sign_hash : KmsClient → Bytes → Bytes → Bytes → Program Bytes
  unfolding padded signature_from_bytes
  cosmos_sign_hash client key_name hash pub_key = do
    signature ← lift (client.asymmetric_sign key_name hash)
    params ← lift (crypto.unmarshal_signature signature)
    r ← padded params.r
    s ← padded params.s
    let final_sig = r ++ s
    sig ← signature_from_bytes final_sig
    require (crypto.verify sig hash pub_key)
    ret final_sig

  -- `resolvePubKeyBytes`; the test is that of the key's algorithm.
  unfoldable pub resolve_pub_key_bytes : KmsClient → Bytes → Program Bytes
  resolve_pub_key_bytes client key_name = do
    pem ← lift (client.get_public_key key_name)
    block ← lift (crypto.pem_decode pem)
    info ← lift (crypto.unmarshal_key block)
    require info.0
    ret info.1

  unfoldable pub new_gcp_kms_signer : KmsClient → Bytes → Program GcpKmsSigner
  unfolding resolve_pub_key_bytes get_eth_addr
  new_gcp_kms_signer client key_name = do
    is_expected ← lift (client.is_secp256k1_sha256 key_name)
    require is_expected
    pub_key_bytes ← resolve_pub_key_bytes client key_name
    eth_public_key ← lift (crypto.unmarshal_pubkey pub_key_bytes)
    eth_address ← get_eth_addr pub_key_bytes
    require (eqb eth_address (crypto.pubkey_to_address eth_public_key))
    compressed ← lift (crypto.parse_pub_key pub_key_bytes)
    ret (record {
      client = client;
      key_name = key_name;
      eth_address = eth_address;
      cosmos_pub_key = compressed;
    })

  unfoldable pub new_mnemonic_signer : Bytes → Program MnemonicSigner
  new_mnemonic_signer mnemonic = do
    eth_priv_key ← lift (crypto.ethereum_private_key mnemonic)
    cosmos_priv_key ← lift (crypto.cosmos_private_key mnemonic)
    ret (record {
      eth_priv_key = eth_priv_key;
      eth_address = crypto.pubkey_to_address (crypto.eth_public_key eth_priv_key);
      cosmos_priv_key = cosmos_priv_key;
      cosmos_pub_key = crypto.cosmos_public_key cosmos_priv_key;
    })

  -- `EthSign` of the two kinds of signer
  unfoldable pub eth_sign_kms : GcpKmsSigner → Bytes → Program Bytes
  unfolding eth_sign_hash digest_of
  eth_sign_kms x data_ =
      eth_sign_hash (digest_of crypto.keccak256 data_) x.client x.key_name x.eth_address

  unfoldable pub eth_sign_mnemonic : MnemonicSigner → Bytes → Program Bytes
  unfolding digest_of bump_at
  eth_sign_mnemonic x data_ = do
    signature ← lift (crypto.sign (digest_of crypto.keccak256 data_) x.eth_priv_key)
    bump_at 64 (λ v. v == 0 || v == 1) signature

  -- `CosmosSign` of the two kinds of signer
  unfoldable pub cosmos_sign_kms : GcpKmsSigner → Bytes → Program Bytes
  unfolding cosmos_sign_hash digest_of
  cosmos_sign_kms x data_ =
      cosmos_sign_hash x.client x.key_name (digest_of crypto.sha256 data_) x.cosmos_pub_key

  unfoldable pub cosmos_sign_mnemonic : MnemonicSigner → Bytes → Program Bytes
  cosmos_sign_mnemonic x data_ = lift (crypto.cosmos_sign data_ x.cosmos_priv_key)
