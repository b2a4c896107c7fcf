-- ===== src/MintSigner/Nonce.antt =====
-- FindNonce of eth/signer.go: the mint controller's nonce for a mint.
pub mod Fresh
use wpokt_validator.Base.{
  ℕ, ℤ, pos, Bool, true, false, not, ◌&&◌, Option, none, some, List, [], ◌∷◌, ◌+ℤ◌, ltb_ℤ, eqb_ℤ,
  if◌then◌else◌,
}
use wpokt_validator.Base.Bytes.{Bytes, eqb, to_lower}
use wpokt_validator.Base.Decimal.{set_string}
use wpokt_validator.Base.Sort.{sort_by}
use wpokt_validator.Models.{Status, is_open, is_signed, Mint, MintData}
use wpokt_validator.External.{External}
use wpokt_validator.Effect.{get_user_nonce, find_mints, Program, ret, ◌>>=◌, ask, lift}

pub record MintSignerRunner : Type 0 where
  pub address : Bytes
  pub vault_address : Bytes
  pub wpokt_address : Bytes
  pub validator_count : ℤ
  pub signer_threshold : ℤ
  pub cosmos_height : ℤ
  pub minimum_amount : ℤ
  pub maximum_amount : ℤ

-- The nonces of the data of the mints; one that does not parse is passed over.
unfoldable pub keep_parsed : Option ℤ → List ℤ → List ℤ
keep_parsed none ns = ns
keep_parsed (some n) ns = n ∷ ns

abbrev pub data_nonce : Option MintData → Option ℤ
data_nonce none = none
data_nonce (some d) = set_string d.nonce

unfoldable pub pending_nonces : List Mint → List ℤ
pending_nonces [] = []
pending_nonces (m ∷ mints) = keep_parsed (data_nonce m.mint_data) (pending_nonces mints)

-- `nonces[len(nonces)-1]`
unfoldable pub last : ℤ → List ℤ → ℤ
last n [] = n
last n (m ∷ ns) = last m ns

-- The contract's nonce, or the largest one pending if that is larger.
unfoldable pub larger_nonce : ℤ → List ℤ → ℤ
larger_nonce current [] = current
larger_nonce current (n ∷ ns) = let top = last n ns in if ltb_ℤ current top then top else current

-- `mint.Nonce` as a number; an empty text is none.
unfoldable pub stored_nonce : Bytes → Program (Option ℤ)
stored_nonce [] = ret none
stored_nonce (c ∷ s) = do n ← lift (set_string (c ∷ s)); ret (some n)

module _ (ext : External) (x : MintSignerRunner) where
  -- The other mints to the same recipient that are not through.
  abbrev pub other_pending : Mint → Mint → Bool
  other_pending mint m =
      not (eqb m.id mint.id)
      && eqb m.vault_address x.vault_address
      && eqb m.wpokt_address x.wpokt_address
      && eqb m.recipient_address (to_lower mint.recipient_address)
      && (if is_open m.status then true else is_signed m.status)

  unfoldable pub next_nonce : Mint → Program ℤ
  next_nonce mint = do
    current ← ask (get_user_nonce (ext.hex_to_address mint.recipient_address))
    current_nonce ← lift current
    found ← ask (find_mints (other_pending mint))
    pending_mints ← lift found
    ret (larger_nonce current_nonce (sort_by ltb_ℤ (pending_nonces pending_mints)) +ℤ pos 1)

  unfoldable pub nonce_or_next : Mint → Option ℤ → Program ℤ
  nonce_or_next mint none = next_nonce mint
  nonce_or_next mint (some n) =
      let next = next_nonce mint in if eqb_ℤ n (pos 0) then next else ret n

  unfoldable pub find_nonce : Mint → Program ℤ
  find_nonce mint = do stored ← stored_nonce mint.nonce; nonce_or_next mint stored
