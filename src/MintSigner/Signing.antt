-- ===== src/MintSigner/Signing.antt =====
-- SignMint, sortSignersAndSignatures and signTypedData of eth/util/signer.go.
pub mod Threshold
use wpokt_validator.Base.{
  ℕ, zero, suc, ◌+◌, ◌*◌, ℤ, pos, Bool, true, false, ◌||◌, not, Option, none, some, List, [], ◌∷◌,
  ◌++◌, map, length, leb, ltb, leb_ℤ, ◌==◌, if◌then◌else◌,
}
use wpokt_validator.Base.Bytes.{Bytes, bytes, to_lower}
use wpokt_validator.Base.Sort.{sort_by}
use wpokt_validator.Models.{signed, Mint}
use wpokt_validator.Common.{encode_to_string}
use wpokt_validator.Effect.{Program, ret, fail, panic, ◌>>=◌, lift}

-- The key, with what go-ethereum does with it: the hash of the typed data of a recipient, an
-- amount and a nonce in the contract's domain, `crypto.Sign`, the text of the key's address, and
-- `HexToAddress` of a text.
pub record SigningKey : Type 0 where
  pub typed_data_hash : Bytes → ℤ → ℤ → Option Bytes
  pub crypto_sign : Bytes → Option Bytes
  pub address_hex : Bytes
  pub hex_to_address : Bytes → Bytes

-- `signature[64]`, which panics out of range; 27 is added to 0 and to 1.
unfoldable pub bump_last : ℕ → Bytes → Option Bytes
bump_last n [] = none
bump_last zero (v ∷ rest) = some ((if v == 0 || v == 1 then v + 27 else v) ∷ rest)
bump_last (suc n) (b ∷ rest) = elim (bump_last n rest) [ none ↦ none | some out ↦ some (b ∷ out) ]

-- A value or a panic.
unfoldable pub must : {A : Type 0} → Option A → Program A
must none = panic
must (some a) = ret a

-- The byte is read before the error of `crypto.Sign` is looked at, and there is no byte then.
unfoldable pub signature_of : Option Bytes → Program Bytes
signature_of none = panic
signature_of (some signature) = must (bump_last 64 signature)

-- `common.HexToAddress(s).Big()`
abbrev big : ℕ → Bytes → ℕ
big n [] = n
big n (b ∷ s) = big (n * 256 + b) s

pub record SignerSignaturePair : Type 0 where
  pub signer : Bytes
  pub signature : Bytes

-- Both lists are as long as the first: `signatures[i]` panics where the second is shorter.
unfoldable pub pair_up : List Bytes → List Bytes → Option (List SignerSignaturePair)
pair_up [] signatures = some []
pair_up (s ∷ signers) [] = none
pair_up (s ∷ signers) (t ∷ signatures) = elim (pair_up signers signatures) [
  | none ↦ none
  | some pairs ↦ some (record { signer = s; signature = t } ∷ pairs)
]

module _ (key : SigningKey) where
  unfoldable pub sign_typed_data : Bytes → ℤ → ℤ → Program Bytes
  sign_typed_data recipient amount nonce = do
    sighash ← lift (key.typed_data_hash recipient amount nonce)
    signature_of (key.crypto_sign sighash)

  abbrev pub signer_number : SignerSignaturePair → ℕ
  signer_number p = big 0 (key.hex_to_address p.signer)

  abbrev pub by_signer : SignerSignaturePair → SignerSignaturePair → Bool
  by_signer p q = ltb (signer_number p) (signer_number q)

  unfoldable pub sort_signers_and_signatures :
      List Bytes → List Bytes → Program (List SignerSignaturePair)
  sort_signers_and_signatures signers signatures = do
    pairs ← must (pair_up signers signatures)
    ret (sort_by by_signer pairs)

  -- The lists of the mint, or empty ones where they do not fit together.
  abbrev pub is_unsigned : Mint → Bool
  is_unsigned mint =
      not (length mint.signatures == length mint.signers) || length mint.signatures == 0

  unfoldable pub signed_mint : ℤ → Mint → List SignerSignaturePair → Mint
  signed_mint threshold mint pairs = record mint {
    status = if leb_ℤ threshold (pos (length pairs)) then signed else mint.status;
    signers = map (λ (p : SignerSignaturePair). p.signer) pairs;
    signatures = map (λ (p : SignerSignaturePair). p.signature) pairs;
  }

  unfoldable pub sign_mint : ℤ → Mint → Bytes → ℤ → ℤ → Program Mint
  sign_mint threshold mint recipient amount nonce = do
    signature ← sign_typed_data recipient amount nonce
    let fresh = is_unsigned mint
    pairs ←
        sort_signers_and_signatures
          ((if fresh then [] else mint.signers) ++ to_lower key.address_hex ∷ [])
          ((if fresh then [] else mint.signatures)
            ++ (bytes "0x" ++ encode_to_string signature) ∷ [])
    ret (signed_mint threshold mint pairs)
