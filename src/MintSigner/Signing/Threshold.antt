-- ===== src/MintSigner/Signing/Threshold.antt =====
-- SignMint of eth/util/signer.go: the signers of its result.
use mathlib.Core.Option.{some-injective}
use mathlib.Core.List.{Permᴰ}
use wpokt_validator.Base.{
  ℕ, suc, ◌+◌, ℤ, pos, ◌≡◌, refl, false, Option, none, some, List, [], ◌∷◌, ◌++◌, map, length,
  length-append, length-map, All, leb_ℤ, ltb, arith, if◌then◌else◌, ◌∙◌, ap, sym,
}
use wpokt_validator.Base.Bytes.{Bytes, bytes, to_lower}
use wpokt_validator.Common.{encode_to_string}
use wpokt_validator.Base.Sort.{sort_by}
use wpokt_validator.Base.Sort.Order.{IsAscending, length-sort_by, sort_by-IsAscending, sort_by-Perm}
use wpokt_validator.Models.{Mint, signed}
use wpokt_validator.Effect.Run.{
  Environment, returned, run, run-ret, run-bind-returned, returned-inj,
}
use wpokt_validator.MintSigner.Signing.{
  SigningKey, SignerSignaturePair, must, pair_up, big, by_signer, signer_number,
  sort_signers_and_signatures, signed_mint, is_unsigned, sign_typed_data, sign_mint,
}

must-returned :
    {A : Type 0} (env : Environment) (o : Option A) {a : A}
    → run env (must o) ≡ returned a
    → o ≡ some a
unfolding must run
must-returned env none h = ground arith
must-returned env (some a) h = ground arith

length-pair_up :
    (signers signatures : List Bytes) (pairs : List SignerSignaturePair)
    → pair_up signers signatures ≡ some pairs
    → length pairs ≡ length signers
unfolding pair_up
length-pair_up [] signatures pairs h = ground arith
length-pair_up (s ∷ signers) [] pairs h = ground arith
length-pair_up (s ∷ signers) (t ∷ signatures) pairs h =
    by_rest (pair_up signers signatures) (length-pair_up signers signatures) h
  where
    by_rest :
        (o : Option (List SignerSignaturePair))
        → ((ps : List SignerSignaturePair) → o ≡ some ps → length ps ≡ length signers)
        → (elim o [ none ↦ none | some ps ↦ some (record { signer = s; signature = t } ∷ ps) ])
          ≡ some pairs
        → length pairs ≡ suc (length signers)
    by_rest none k h = ground arith
    by_rest (some ps) k h = ground (arith, k ps refl)

-- The signers with their signatures, as far as both lists go.
abbrev pub pairs_of : List Bytes → List Bytes → List SignerSignaturePair
pairs_of [] signatures = []
pairs_of (s ∷ signers) [] = []
pairs_of (s ∷ signers) (t ∷ signatures) =
    record { signer = s; signature = t } ∷ pairs_of signers signatures

pair_up-pairs_of :
    (signers signatures : List Bytes) (pairs : List SignerSignaturePair)
    → pair_up signers signatures ≡ some pairs
    → pairs_of signers signatures ≡ pairs
unfolding pair_up
pair_up-pairs_of [] signatures pairs h = ground arith
pair_up-pairs_of (s ∷ signers) [] pairs h = ground arith
pair_up-pairs_of (s ∷ signers) (t ∷ signatures) pairs h =
    by_rest (pair_up signers signatures) (pair_up-pairs_of signers signatures) h
  where
    by_rest :
        (o : Option (List SignerSignaturePair))
        → ((ps : List SignerSignaturePair) → o ≡ some ps → pairs_of signers signatures ≡ ps)
        → (elim o [ none ↦ none | some ps ↦ some (record { signer = s; signature = t } ∷ ps) ])
          ≡ some pairs
        → pairs_of (s ∷ signers) (t ∷ signatures) ≡ pairs
    by_rest none k h = absurd (ground arith)
    by_rest (some ps) k h = rw (k ps refl) (some-injective _ _ h)

pairs_of-map :
    (pairs : List SignerSignaturePair)
    → pairs_of
        (map (λ (p : SignerSignaturePair). p.signer) pairs)
        (map (λ (p : SignerSignaturePair). p.signature) pairs)
      ≡ pairs
pairs_of-map [] = refl
pairs_of-map (p ∷ pairs) = ap (λ ps. p ∷ ps) (pairs_of-map pairs)

module _ (env : Environment) (key : SigningKey) where
  -- The number of the address of each signer.
  abbrev pub numbers : List Bytes → List ℕ
  numbers signers = map (λ (s : Bytes). big 0 (key.hex_to_address s)) signers

  IsAscending-numbers :
      (pairs : List SignerSignaturePair)
      → IsAscending (by_signer key) pairs
      → IsAscending ltb (numbers (map (λ (p : SignerSignaturePair). p.signer) pairs))
  IsAscending-numbers [] h = tt
  IsAscending-numbers (p ∷ pairs) h = (go pairs h.0, IsAscending-numbers pairs h.1)
    where
      go :
          (qs : List SignerSignaturePair)
          → All (λ q. by_signer key q p ≡ false) qs
          → All
              (λ n. ltb n (signer_number key p) ≡ false)
              (numbers (map (λ (q : SignerSignaturePair). q.signer) qs))
      go [] h = tt
      go (q ∷ qs) h = (h.0, go qs h.1)

  sort-returned :
      (signers signatures : List Bytes) (pairs : List SignerSignaturePair)
      → run env (sort_signers_and_signatures key signers signatures) ≡ returned pairs
      → (length pairs ≡ length signers)
        × IsAscending (by_signer key) pairs
        × Permᴰ pairs (pairs_of signers signatures)
  unfolding sort_signers_and_signatures
  sort-returned signers signatures pairs h =
      let (ps, e, k) = run-bind-returned env _ _ h in
      let s : sort_by (by_signer key) ps ≡ pairs = returned-inj (rw run-ret at k) in
      rw (← s) (
        length-sort_by (by_signer key) ps
            ∙ length-pair_up signers signatures ps (must-returned env _ e),
        sort_by-IsAscending (by_signer key) (λ a b t. ground arith) (λ a b c t u. ground arith) ps,
        rw (pair_up-pairs_of signers signatures ps (must-returned env _ e))
            (sort_by-Perm (by_signer key) ps),
      )

  -- The signers that a mint has where its lists fit together.
  abbrev pub earlier_signers : Mint → List Bytes
  earlier_signers mint = if is_unsigned key mint then [] else mint.signers

  abbrev pub kept_signatures : Mint → List Bytes
  kept_signatures mint = if is_unsigned key mint then [] else mint.signatures

  -- A mint that gets a signature keeps the signers that it had, each with its signature (none,
  -- where its lists do not fit together), and has in addition the key's address with the key's
  -- signature of the recipient, the amount and the nonce. It has one signer more than before, as
  -- many signatures as signers, its signers in the order of their addresses' numbers, and is signed
  -- if the signers reach the threshold, else of the status that it had.
  pub sign_mint-IsOrdered :
      (threshold : ℤ) (mint out : Mint) (recipient : Bytes) (amount nonce : ℤ)
      → run env (sign_mint key threshold mint recipient amount nonce) ≡ returned out
      → (signature : Bytes) × (run env (sign_typed_data key recipient amount nonce)
          ≡ returned signature)
        × Permᴰ (pairs_of out.signers out.signatures) (
            pairs_of
              (earlier_signers mint ++ to_lower key.address_hex ∷ [])
              (kept_signatures mint ++ (bytes "0x" ++ encode_to_string signature) ∷ []))
        × (length out.signers ≡ length (earlier_signers mint) + 1)
        × (length out.signatures ≡ length out.signers)
        × IsAscending ltb (numbers out.signers)
        × (out.status
            ≡ (if leb_ℤ threshold (pos (length out.signers)) then signed else mint.status))
  unfolding sign_mint signed_mint
  sign_mint-IsOrdered threshold mint out recipient amount nonce h =
      let (signature, made, h₁) = run-bind-returned env _ _ h in
      let (pairs, paired, h₂) = run-bind-returned env _ _ h₁ in
      let e : signed_mint key threshold mint pairs ≡ out = returned-inj (rw run-ret at h₂) in
      let (count, ascending, kept) =
        sort-returned (earlier_signers mint ++ to_lower key.address_hex ∷ []) _ pairs paired in
      (
        signature,
        made,
        rw (← e) (rw (pairs_of-map pairs) kept),
        rw (← e) (length-map _ pairs ∙ count ∙ length-append (earlier_signers mint) _),
        rw (← e) (length-map _ pairs ∙ sym (length-map _ pairs)),
        rw (← e) (IsAscending-numbers pairs ascending),
        rw (← e) (
            ap (λ n. if leb_ℤ threshold (pos n) then signed else mint.status)
              (sym (length-map _ pairs))),
      )
