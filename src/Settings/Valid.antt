-- ===== src/Settings/Valid.antt =====
-- The settings that pass validateConfig of app/config.go.
use Prim.Native.Nat.{zero, suc}
use mathlib.Core.Path.{subst}
use wpokt_validator.Base.{
  ℕ, ℤ, pos, ◌+◌, ◌≤◌, Bool, true, false, not, ◌&&◌, ◌||◌, Option, none, some, List, [], ◌∷◌,
  length, if◌then◌else◌, any, All, ◌≡◌, ◌≢◌, ◌⊎◌, inl, inr, refl, arith, ap, ◌==◌, ◌∙◌, ltb, eqb_ℤ,
  sym, leb, leb→le, none≢some,
}
use wpokt_validator.Base.Bytes.{Bytes, eqb, equal_fold, trim_0x, eqb→eq}
use wpokt_validator.Models.Config.{Config, EthereumConfig, CosmosConfig, ServiceConfig}
use wpokt_validator.Common.{is_valid_ethereum_address, is_valid_bech32_address, bech32_from_bytes}
use wpokt_validator.External.{External}
use wpokt_validator.Effect.{ret, lift, require}
use wpokt_validator.Effect.Pure.{bind-ret, lift-ret, require-ret, ret-inj}
use wpokt_validator.Settings.Signers.{
  Accounts, PocketSigner, Found, find_signer, later_or, cosmos_public_key,
  cosmos_public_key_from_hex, get_ethereum_signer, get_pocket_signer_and_multisig,
  create_pocket_signer,
}
use wpokt_validator.Settings.{
  find_validator, validate_ethereum, validate_pocket, validate_service, validate_services,
  validate_config, need, need_int, validate_mongo, validate_endpoint,
}

-- The element at an index.
abbrev pub get_elem? {ℓ} : {A : Type ℓ} → List A → ℕ → Option A
get_elem? [] i = none
get_elem? (x ∷ xs) zero = some x
get_elem? (x ∷ xs) (suc i) = get_elem? xs i

find_validator-ret :
    (address : Bytes) (vs : List Bytes) (b : Bool)
    → find_validator address vs b ≡ ret true
    → All (λ v. is_valid_ethereum_address v ≡ true) vs
      × ((b ≡ true) ⊎ (any (λ v. equal_fold v address) vs ≡ true))
unfolding find_validator
find_validator-ret address [] b h = (tt, inl (ret-inj h))
find_validator-ret address (v ∷ vs) b h =
    let valid = bind-ret (require (is_valid_ethereum_address v)) _ h in
    let rest = find_validator-ret address vs (if equal_fold v address then true else b) valid.2 in
    (
      (require-ret _ valid.0 valid.1, rest.0),
      or_here (equal_fold v address) b (any (λ w. equal_fold w address) vs) rest.1,
    )
  where
    or_here :
        (here found later : Bool)
        → ((if here then true else found) ≡ true) ⊎ (later ≡ true)
        → (found ≡ true) ⊎ ((here || later) ≡ true)
    or_here here found later h = ground arith

-- The index is that of a key that parses to the one sought.
abbrev pub IsIndex : Accounts → Bytes → List Bytes → ℕ → Type 0
IsIndex accounts key pks j =
    (pk : Bytes) × (get_elem? pks j ≡ some pk) × (cosmos_public_key_from_hex accounts pk ≡ ret key)

later_or-some :
    (o : Option ℕ) (b : Bool) (i j : ℕ)
    → later_or o b i ≡ some j
    → (o ≡ some j) ⊎ ((b ≡ true) × (j ≡ i))
unfolding later_or
later_or-some none b i j h = ground arith
later_or-some (some k) b i j h = inl h

find_signer-ret :
    (accounts : Accounts) (key : Bytes) (pks : List Bytes) (i : ℕ) (f : Found) (j : ℕ)
    → find_signer accounts key pks i ≡ ret f
    → f.index ≡ some j
    → (k : ℕ) × (j ≡ i + k) × IsIndex accounts key pks k
unfolding find_signer later_or
find_signer-ret accounts key [] i f j h e = absurd (none≢some (ap (λ g. g.index) (ret-inj h) ∙ e))
find_signer-ret accounts key (pk ∷ pks) i f j h e =
    let here = bind-ret (cosmos_public_key_from_hex accounts pk) _ h in
    let rest = bind-ret (find_signer accounts key pks (suc i)) _ here.2 in
    let index : later_or rest.0.index (eqb here.0 key) i ≡ some j =
      ap (λ g. g.index) (ret-inj rest.2) ∙ e in
    elim (later_or-some rest.0.index (eqb here.0 key) i j index) [
      | inl later ↦
          (let got = find_signer-ret accounts key pks (suc i) rest.0 j rest.1 later in
            (suc got.0, omega (arith, got.1), got.2))
      | inr found ↦
          (0, omega (arith, found.1), (pk, refl, here.1 ∙ ap ret (eqb→eq here.0 key found.0)))
    ]

find_signer-index :
    (accounts : Accounts) (key : Bytes) (pks : List Bytes) (f : Found) (j : ℕ)
    → find_signer accounts key pks 0 ≡ ret f
    → f.index ≡ some j
    → IsIndex accounts key pks j
find_signer-index accounts key pks f j h e =
    let got = find_signer-ret accounts key pks 0 f j h e in
    let same : j ≡ got.0 = omega (arith, got.1) in rw same got.2

threshold-bounds : (t n : ℕ) → not (t == 0 || ltb n t) ≡ true → (1 ≤ t) × (t ≤ n)
threshold-bounds t n h = ground arith

not_before : {b : Bool} → (false ≡ true) ⊎ (b ≡ true) → b ≡ true
not_before h = ground arith

-- A service that is turned on has an interval.
abbrev pub IsPaced : ServiceConfig → Type 0
IsPaced c = c.enabled ≡ true → c.interval_millis ≢ pos 0

abbrev pub IsReadyEthereum : Accounts → EthereumConfig → Type 0
IsReadyEthereum accounts c =
    (address : Bytes) × (get_ethereum_signer accounts c ≡ ret address)
    × All (λ v. is_valid_ethereum_address v ≡ true) c.validator_addresses
    × (any (λ v. equal_fold v address) c.validator_addresses ≡ true)

abbrev pub IsReadyPocket : External → Accounts → CosmosConfig → Type 0
IsReadyPocket ext accounts c =
    (p : PocketSigner) × (get_pocket_signer_and_multisig ext accounts c ≡ ret p)
    × (create_pocket_signer accounts c ≡ ret p.signer)
    × IsIndex accounts (cosmos_public_key p.signer) c.multisig_public_keys p.signer_index
    × (1 ≤ c.multisig_threshold)
    × (c.multisig_threshold ≤ length c.multisig_public_keys)
    × (2 ≤ length c.multisig_public_keys)
    × (equal_fold p.multisig_address c.multisig_address ≡ true)

signer-IsReadyPocket :
    (ext : External) (accounts : Accounts) (c : CosmosConfig) (p : PocketSigner)
    → 2 ≤ length c.multisig_public_keys
    → get_pocket_signer_and_multisig ext accounts c ≡ ret p
    → IsReadyPocket ext accounts c
unfolding get_pocket_signer_and_multisig
signer-IsReadyPocket ext accounts c p many h =
    let signer = bind-ret (create_pocket_signer accounts c) _ h in
    let key = cosmos_public_key signer.0 in
    let address =
      bind-ret (lift (bech32_from_bytes ext c.bech32_prefix (accounts.key_address key))) _
        signer.2 in
    let found = bind-ret (find_signer accounts key c.multisig_public_keys 0) _ address.2 in
    let index = bind-ret (lift found.0.index) _ found.2 in
    let bound =
      bind-ret
        (require (
          not (
            c.multisig_threshold == 0 || ltb (length c.multisig_public_keys) c.multisig_threshold)))
        _ index.2 in
    let same = bind-ret (require _) _ bound.2 in
    let at_index =
      find_signer-index accounts key c.multisig_public_keys found.0 index.0 found.1
        (lift-ret found.0.index index.1) in
    let threshold =
      threshold-bounds c.multisig_threshold (length c.multisig_public_keys)
        (require-ret _ bound.0 bound.1) in
    (
      _,
      h ∙ sym same.2,
      signer.1,
      at_index,
      threshold.0,
      threshold.1,
      many,
      require-ret _ same.0 same.1,
    )

need_int-ret : (z : ℤ) (t : Unit {0}) → need_int z ≡ ret t → z ≢ pos 0
unfolding need_int
need_int-ret z t h e =
    let passed = require-ret (not (eqb_ℤ z (pos 0))) t h in let bad = rw e at passed in ground arith

validate_service-IsPaced :
    (c : ServiceConfig) (t : Unit {0}) → validate_service c ≡ ret t → IsPaced c
unfolding validate_service
validate_service-IsPaced c t h on e =
    let passed = require-ret (not (c.enabled && eqb_ℤ c.interval_millis (pos 0))) t h in
    let bad = rw (on, e) at passed in ground arith

validate_ethereum-IsReady :
    (accounts : Accounts) (c d : EthereumConfig)
    → validate_ethereum accounts c ≡ ret d
    → (d ≡ record c { private_key = trim_0x c.private_key }) × IsReadyEthereum accounts d
unfolding validate_ethereum
validate_ethereum-IsReady accounts c d h =
    let trimmed = record c { private_key = trim_0x c.private_key } in
    let a1 = bind-ret (need c.rpc_url) _ h in
    let a2 = bind-ret (need c.chain_id) _ a1.2 in
    let a3 = bind-ret (need_int c.rpc_timeout_millis) _ a2.2 in
    let a4 = bind-ret (need c.private_key) _ a3.2 in
    let a5 = bind-ret (need c.wrapped_pocket_address) _ a4.2 in
    let a6 = bind-ret (need c.mint_controller_address) _ a5.2 in
    let a7 = bind-ret (require (not (length c.validator_addresses == 0))) _ a6.2 in
    let signer = bind-ret (get_ethereum_signer accounts trimmed) _ a7.2 in
    let found = bind-ret (find_validator signer.0 c.validator_addresses false) _ signer.2 in
    let last = bind-ret (require found.0) _ found.2 in
    let yes = require-ret found.0 last.0 last.1 in
    let valid = find_validator-ret signer.0 c.validator_addresses false (found.1 ∙ ap ret yes) in
    let same : trimmed ≡ d = ret-inj last.2 in
    (sym same, rw (sym same) (signer.0, signer.1, valid.0, not_before valid.1))

validate_pocket-IsReady :
    (ext : External) (accounts : Accounts) (c : CosmosConfig) (t : Unit {0})
    → validate_pocket ext accounts c ≡ ret t
    → IsReadyPocket ext accounts c
unfolding validate_pocket
validate_pocket-IsReady ext accounts c t h =
    let b1 = bind-ret (validate_endpoint c) _ h in
    let b2 = bind-ret (need_int c.rpc_timeout_millis) _ b1.2 in
    let b3 = bind-ret (need c.chain_id) _ b2.2 in
    let b4 = bind-ret (need c.bech32_prefix) _ b3.2 in
    let b5 = bind-ret (need c.coin_denom) _ b4.2 in
    let b6 =
      bind-ret (require (is_valid_bech32_address ext c.bech32_prefix c.multisig_address)) _ b5.2 in
    let b7 = bind-ret (require (leb 2 (length c.multisig_public_keys))) _ b6.2 in
    let b8 = bind-ret (require (not (eqb c.mnemonic [] && eqb c.gcp_kms_key_name []))) _ b7.2 in
    let signer = bind-ret (get_pocket_signer_and_multisig ext accounts c) _ b8.2 in
    let many = leb→le 2 (length c.multisig_public_keys) (require-ret _ b7.0 b7.1) in
    signer-IsReadyPocket ext accounts c signer.0 many signer.1

abbrev pub ArePaced : Config → Type 0
ArePaced c =
    IsPaced c.mint_monitor
    × IsPaced c.mint_signer
    × IsPaced c.mint_executor
    × IsPaced c.burn_monitor
    × IsPaced c.burn_signer
    × IsPaced c.burn_executor

validate_services-ArePaced : (c : Config) (t : Unit {0}) → validate_services c ≡ ret t → ArePaced c
unfolding validate_services
validate_services-ArePaced c t h =
    let s1 = bind-ret (validate_service c.mint_monitor) _ h in
    let s2 = bind-ret (validate_service c.mint_signer) _ s1.2 in
    let s3 = bind-ret (validate_service c.mint_executor) _ s2.2 in
    let s4 = bind-ret (validate_service c.burn_monitor) _ s3.2 in
    let s5 = bind-ret (validate_service c.burn_signer) _ s4.2 in
    (
      validate_service-IsPaced c.mint_monitor s1.0 s1.1,
      validate_service-IsPaced c.mint_signer s2.0 s2.1,
      validate_service-IsPaced c.mint_executor s3.0 s3.1,
      validate_service-IsPaced c.burn_monitor s4.0 s4.1,
      validate_service-IsPaced c.burn_signer s5.0 s5.1,
      validate_service-IsPaced c.burn_executor t s5.2,
    )

-- Settings that pass the validation come out as they went in, but for the private key, which has
-- lost its prefix, and the process can work with them. The private key makes an Ethereum address,
-- which is one of the validators', and all of these are valid addresses. The pocket signer can be
-- made; its public key is what the key at its index in the list of multisig keys parses to; the
-- threshold is at least one and at most the number of keys, of which there are two or more; and
-- the keys and the threshold make the vault's address. And each service that is turned on, and the
-- health check, has an interval other than zero.
pub validate_config-IsReady :
    (ext : External) (accounts : Accounts) (c d : Config)
    → validate_config ext accounts c ≡ ret d
    → (d ≡ record c {
      ethereum = record c.ethereum { private_key = trim_0x c.ethereum.private_key };
    })
      × IsReadyEthereum accounts d.ethereum
      × IsReadyPocket ext accounts d.pocket
      × ArePaced d
      × (d.health_check.interval_millis ≢ pos 0)
unfolding validate_config
validate_config-IsReady ext accounts c d h =
    let mongo = bind-ret (validate_mongo c.mongo_db) _ h in
    let ethereum = bind-ret (validate_ethereum accounts c.ethereum) _ mongo.2 in
    let pocket = bind-ret (validate_pocket ext accounts c.pocket) _ ethereum.2 in
    let services = bind-ret (validate_services c) _ pocket.2 in
    let health = bind-ret (need_int c.health_check.interval_millis) _ services.2 in
    let same : record c { ethereum = ethereum.0 } ≡ d = ret-inj health.2 in
    let ready = validate_ethereum-IsReady accounts c.ethereum ethereum.0 ethereum.1 in
    subst
      (λ e.
        (e ≡ record c {
          ethereum = record c.ethereum { private_key = trim_0x c.ethereum.private_key };
        })
        × IsReadyEthereum accounts e.ethereum
        × IsReadyPocket ext accounts e.pocket
        × ArePaced e
        × (e.health_check.interval_millis ≢ pos 0))
      same
      (
        ap (λ e. record c { ethereum = e }) ready.0,
        ready.1,
        validate_pocket-IsReady ext accounts c.pocket pocket.0 pocket.1,
        validate_services-ArePaced c services.0 services.1,
        need_int-ret c.health_check.interval_millis health.0 health.1,
      )
