-- ===== src/Keys/Bounds.antt =====
-- The signatures of the two kinds of signer in common/: their lengths and their last bytes.
use Prim.Native.Nat.{zero, suc}
use wpokt_validator.Base.{
  ℕ, ◌+◌, ◌/◌, ◌%◌, ◌<◌, ◌^◌, Bool, true, false, Option, none, some, List, [], ◌∷◌, ◌++◌, length,
  All, if◌then◌else◌, ◌≡◌, refl, arith, length-append, All-append, not, ltb, sym, Bool-cases, ◌∙◌,
  ◌||◌, inl, inr, ap, ◌≢◌, ◌==◌, ℤ, ==→eq, drop,
}
use wpokt_validator.Base.Bytes.{Bytes, eqb, eqb→eq}
use wpokt_validator.Effect.{Program, ret, panic, ◌>>=◌, ◌>>◌, lift, require}
use wpokt_validator.Effect.Pure.{bind-ret, lift-ret, require-ret, ret-inj}
use wpokt_validator.Keys.Packages.{Crypto}
use wpokt_validator.Keys.{
  fill_bytes, add_27, bump_at, try_ids, found_signature, eth_sign_hash, digest_of, magnitude,
  GcpKmsSigner, eth_sign_kms, get_eth_addr, try_id, is_denied, cosmos_sign_kms, cosmos_sign_hash,
  signature_from_bytes, padded,
}

panic≢ret : {A : Type 0} {a : A} → panic ≢ ret a
panic≢ret h = ground arith

not-eq-true : (b : Bool) → not b ≡ true → b ≡ false
not-eq-true b h = ground arith

fill_bytes-length : (w n : ℕ) → length (fill_bytes w n) ≡ w
unfolding fill_bytes
fill_bytes-length zero n = refl
fill_bytes-length (suc w) n =
    omega
      (arith, length-append (fill_bytes w (n / 256)) (n % 256 ∷ []), fill_bytes-length w (n / 256))

fill_bytes-IsByte : (w n : ℕ) → All (λ b. b < 256) (fill_bytes w n)
unfolding fill_bytes
fill_bytes-IsByte zero n = tt
fill_bytes-IsByte (suc w) n =
    All-append (λ b. b < 256) (fill_bytes w (n / 256)) (n % 256 ∷ [])
      (fill_bytes-IsByte w (n / 256)) (omega arith, tt)

bump_at-last :
    (test : ℕ → Bool) (v : ℕ) (rs : Bytes)
    → bump_at (length rs) test (rs ++ (v ∷ []))
      ≡ ret (rs ++ ((if test v then add_27 v else v) ∷ []))
unfolding bump_at ◌>>=◌
bump_at-last test v [] = refl
bump_at-last test v (b ∷ rs) = rw (bump_at-last test v rs) refl

found_signature-ret :
    (p : Bool × Option Bytes) (s : Bytes) → found_signature p ≡ ret s → p ≡ (false, some s)
unfolding found_signature
found_signature-ret (true, sig) s h = ground arith
found_signature-ret (false, none) s h = ground arith
found_signature-ret (false, some sig) s h = ground arith

try_id-found :
    (crypto : Crypto) (id : ℕ) (rs address : Bytes) (o : Option Bytes)
    (next : Bool → Program (Bool × Option Bytes)) (b : Bool) (sig : Bytes)
    → id < 2
    → ((e : Bool) → next e ≡ ret (b, some sig) → (i : ℕ) × (i < 2) × (sig ≡ rs ++ (i ∷ [])))
    → try_id crypto id rs address o next ≡ ret (b, some sig)
    → (i : ℕ) × (i < 2) × (sig ≡ rs ++ (i ∷ []))
unfolding try_id
try_id-found crypto id rs address none next b sig small rest h = rest true h
try_id-found crypto id rs address (some key) next b sig small rest h =
    let got = bind-ret (get_eth_addr crypto key) _ h in
    elim (Bool-cases (eqb got.0 address)) [
      | inl e ↦ (id, small, ground (arith, rw e at got.2))
      | inr e ↦ rest false (rw e at got.2)
    ]

try_ids-found :
    (crypto : Crypto) (ids : List ℕ) (hash rs address : Bytes) (e b : Bool) (sig : Bytes)
    → All (λ i. i < 2) ids
    → try_ids crypto ids hash rs address e ≡ ret (b, some sig)
    → (id : ℕ) × (id < 2) × (sig ≡ rs ++ (id ∷ []))
unfolding try_ids
try_ids-found crypto [] hash rs address e b sig small h = ground arith
try_ids-found crypto (id ∷ ids) hash rs address e b sig small h =
    try_id-found crypto id rs address (crypto.recover_compact ((id + 27) ∷ rs) hash)
      (try_ids crypto ids hash rs address) b sig small.0
      (λ e' k. try_ids-found crypto ids hash rs address e' b sig small.1 k) h

-- A signature of go-ethereum: 64 bytes and a recovery byte of 27 or 28.
abbrev pub IsEthSignature : Crypto → Bytes → Bytes → Bytes → Type 0
IsEthSignature crypto hash address sig =
    (rs : Bytes) × (id : ℕ) × (sig ≡ rs ++ ((id + 27) ∷ []))
    × (length rs ≡ 64)
    × All (λ b. b < 256) rs
    × (id < 2)
    × (key : Bytes) × (point : Bytes) × (crypto.ecrecover hash (rs ++ (id ∷ [])) ≡ some key)
    × (crypto.unmarshal_pubkey key ≡ some point)
    × (crypto.pubkey_to_address point ≡ address)

numbers-length : (r s : ℕ) → length (fill_bytes 32 r ++ fill_bytes 32 s) ≡ 64
numbers-length r s = omega (
  arith,
  length-append (fill_bytes 32 r) (fill_bytes 32 s),
  fill_bytes-length 32 r,
  fill_bytes-length 32 s,
)

bumped : (id : ℕ) → id < 2 → (if ltb id 4 then add_27 id else id) ≡ id + 27
unfolding add_27
bumped id h = ground arith

bump_at-64 :
    (id : ℕ) (rs : Bytes)
    → length rs ≡ 64
    → id < 2
    → bump_at 64 (λ v. ltb v 4) (rs ++ (id ∷ [])) ≡ ret (rs ++ ((id + 27) ∷ []))
bump_at-64 id rs n h =
    rw (sym n) (bump_at-last (λ v. ltb v 4) id rs ∙ ap (λ v. ret (rs ++ (v ∷ []))) (bumped id h))

-- The checks on a signature that the loop found.
checked-IsEthSignature :
    (crypto : Crypto) (hash address rs final sig : Bytes) (id : ℕ)
    → length rs ≡ 64
    → All (λ b. b < 256) rs
    → id < 2
    → final ≡ rs ++ (id ∷ [])
    → (do
      recovered ← lift (crypto.ecrecover hash final)
      key ← lift (crypto.unmarshal_pubkey recovered)
      require (eqb (crypto.pubkey_to_address key) address)
      bump_at 64 (λ v. ltb v 4) final)
      ≡ ret sig
    → IsEthSignature crypto hash address sig
checked-IsEthSignature crypto hash address rs final sig id n bytes_rs small same h =
    let recovered = bind-ret (lift (crypto.ecrecover hash final)) _ h in
    let key = bind-ret (lift (crypto.unmarshal_pubkey recovered.0)) _ recovered.2 in
    let matches = bind-ret (require (eqb (crypto.pubkey_to_address key.0) address)) _ key.2 in
    let recovers : crypto.ecrecover hash final ≡ some recovered.0 =
      lift-ret (crypto.ecrecover hash final) recovered.1 in
    let bumped_to : ret (rs ++ ((id + 27) ∷ [])) ≡ ret sig =
      sym (bump_at-64 id rs n small) ∙ ap (bump_at 64 (λ v. ltb v 4)) (sym same) ∙ matches.2 in
    (
      rs,
      id,
      sym (ret-inj bumped_to),
      n,
      bytes_rs,
      small,
      recovered.0,
      key.0,
      ap (λ z. crypto.ecrecover hash z) (sym same) ∙ recovers,
      lift-ret (crypto.unmarshal_pubkey recovered.0) key.1,
      eqb→eq _ _ (require-ret _ matches.0 matches.1),
    )

-- The signature that `EthSign` of a key of the key management service returns has 65 bytes, the
-- last one 27 or 28; and the public key that its first 64 bytes and that recovery id recover from
-- the digest has the signer's address.
pub eth_sign_kms-IsEthSignature :
    (crypto : Crypto) (x : GcpKmsSigner) (data_ sig : Bytes)
    → eth_sign_kms crypto x data_ ≡ ret sig
    → IsEthSignature crypto (digest_of crypto.keccak256 data_) x.eth_address sig
unfolding eth_sign_kms eth_sign_hash
eth_sign_kms-IsEthSignature crypto x data_ sig h =
    let hash = digest_of crypto.keccak256 data_ in
    let signed = bind-ret (lift (x.client.asymmetric_sign x.key_name hash)) _ h in
    let params = bind-ret (lift (crypto.unmarshal_signature signed.0)) _ signed.2 in
    let r = magnitude params.0.r in
    let s = magnitude params.0.s in
    let rs = fill_bytes 32 r ++ fill_bytes 32 s in
    let sized = bind-ret (require (not (is_denied r || is_denied s))) _ params.2 in
    let tried = bind-ret (try_ids crypto (0 ∷ 1 ∷ []) hash rs x.eth_address false) _ sized.2 in
    let found = bind-ret (found_signature tried.0) _ tried.2 in
    let which = found_signature-ret tried.0 found.0 found.1 in
    let id =
      try_ids-found crypto (0 ∷ 1 ∷ []) hash rs x.eth_address false false found.0
        (omega arith, (omega arith, tt)) (tried.1 ∙ ap ret which) in
    let bytes_rs =
      All-append (λ b. b < 256) (fill_bytes 32 r) (fill_bytes 32 s) (fill_bytes-IsByte 32 r)
        (fill_bytes-IsByte 32 s) in
    checked-IsEthSignature crypto hash x.eth_address rs found.0 sig id.0 (numbers-length r s)
      bytes_rs id.1 id.2 found.2

padded-ret : (o : Option ℤ) (b : Bytes) → padded o ≡ ret b → (n : ℕ) × (b ≡ fill_bytes 32 n)
unfolding padded
padded-ret none b h = ground arith
padded-ret (some z) b h = elim (Bool-cases (ltb (magnitude (some z)) (2 ^ 256))) [
  | inl e ↦ (magnitude (some z), sym (ret-inj (rw e at h)))
  | inr e ↦ absurd (panic≢ret (rw e at h))
]

padded-IsByte :
    (r s : Option ℤ) (a b sig : Bytes)
    → padded r ≡ ret a
    → padded s ≡ ret b
    → a ++ b ≡ sig
    → All (λ c. c < 256) sig
padded-IsByte r s a b sig p q e =
    let m = padded-ret r a p in
    let n = padded-ret s b q in
    let bytes_a : All (λ c. c < 256) a = rw m.1 (fill_bytes-IsByte 32 m.0) in
    let bytes_b : All (λ c. c < 256) b = rw n.1 (fill_bytes-IsByte 32 n.0) in
    rw (sym e) (All-append (λ c. c < 256) a b bytes_a bytes_b)

signature_from_bytes-ret :
    (crypto : Crypto) (s t : Bytes)
    → signature_from_bytes crypto s ≡ ret t
    → (s ≡ t) × (length s ≡ 64) × (crypto.is_over_half_order (drop 32 s) ≡ false)
unfolding signature_from_bytes
signature_from_bytes-ret crypto s t h =
    let sized = bind-ret (require (length s == 64)) _ h in
    let low = bind-ret (require (not (crypto.is_over_half_order (drop 32 s)))) _ sized.2 in
    (
      ret-inj low.2,
      ==→eq (length s) 64 (require-ret _ sized.0 sized.1),
      not-eq-true _ (require-ret _ low.0 low.1),
    )

-- The signature that `CosmosSign` of a key of the key management service returns has 64 bytes, is
-- in lower-S form, and verifies under the signer's public key.
pub cosmos_sign_kms-IsCosmosSignature :
    (crypto : Crypto) (x : GcpKmsSigner) (data_ sig : Bytes)
    → cosmos_sign_kms crypto x data_ ≡ ret sig
    → (length sig ≡ 64)
      × All (λ b. b < 256) sig
      × (crypto.is_over_half_order (drop 32 sig) ≡ false)
      × (crypto.verify sig (digest_of crypto.sha256 data_) x.cosmos_pub_key ≡ true)
unfolding cosmos_sign_kms cosmos_sign_hash signature_from_bytes
cosmos_sign_kms-IsCosmosSignature crypto x data_ sig h =
    let hash = digest_of crypto.sha256 data_ in
    let signed = bind-ret (lift (x.client.asymmetric_sign x.key_name hash)) _ h in
    let params = bind-ret (lift (crypto.unmarshal_signature signed.0)) _ signed.2 in
    let r = bind-ret (padded params.0.r) _ params.2 in
    let s = bind-ret (padded params.0.s) _ r.2 in
    let parsed = bind-ret (signature_from_bytes crypto (r.0 ++ s.0)) _ s.2 in
    let whole = signature_from_bytes-ret crypto (r.0 ++ s.0) parsed.0 parsed.1 in
    let verified = bind-ret (require (crypto.verify parsed.0 hash x.cosmos_pub_key)) _ parsed.2 in
    let checks = require-ret _ verified.0 verified.1 in
    let same : r.0 ++ s.0 ≡ sig = ret-inj verified.2 in
    (
      ap length (sym same) ∙ whole.1,
      padded-IsByte params.0.r params.0.s r.0 s.0 sig r.1 s.1 same,
      ap (λ z. crypto.is_over_half_order (drop 32 z)) (sym same) ∙ whole.2,
      ap (λ z. crypto.verify z hash x.cosmos_pub_key) (sym same ∙ whole.0) ∙ checks,
    )
