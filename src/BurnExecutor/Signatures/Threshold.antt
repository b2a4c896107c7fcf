-- ===== src/BurnExecutor/Signatures/Threshold.antt =====
-- The signatures behind the multisig signature of cosmos/executor.go.
use mathlib.Core.Option.{some-injective}
use wpokt_validator.Base.{
  Option, none, sym, ap, ℕ, ◌≤◌, ◌≡◌, true, false, not, ◌||◌, some, List, [], ◌∷◌, length, All,
  arith, ◌==◌, ltb, ◌∙◌,
}
use wpokt_validator.Base.Bytes.{Bytes, eqb}
use wpokt_validator.Models.Config.{Config}
use wpokt_validator.Models.Chain.{Account}
use wpokt_validator.External.Sdk.{Sdk, SignatureV2}
use wpokt_validator.Effect.{get_account}
use wpokt_validator.Effect.Run.{
  Environment, returned, run, run-ask, run-bind-returned, returned-inj, lift-returned,
  require-returned,
}
use wpokt_validator.BurnExecutor.Signatures.{
  BurnExecutorRunner, contains, key_of, validate_signature, collect, add_multisignature,
}

-- No key twice.
abbrev pub AreDistinct : List Bytes → Type 0
AreDistinct [] = Unit
AreDistinct (k ∷ ks) = All (λ j. eqb k j ≡ false) ks × AreDistinct ks

abbrev with_key : Option Bytes → List Bytes → List Bytes
with_key none ks = ks
with_key (some k) ks = k ∷ ks

-- The keys of the signatures that have one.
abbrev pub keys : List SignatureV2 → List Bytes
keys [] = []
keys (s ∷ sigs) = with_key s.pub_key (keys sigs)

abbrev IsNew : List Bytes → Bytes → Type 0
IsNew seen j = contains j seen ≡ false

split-IsNew :
    (k : Bytes) (seen js : List Bytes)
    → All (IsNew (k ∷ seen)) js
    → All (λ j. eqb k j ≡ false) js × All (IsNew seen) js
unfolding contains
split-IsNew k seen [] h = (tt, tt)
split-IsNew k seen (j ∷ js) h =
    let (a, b) = split-IsNew k seen js h.1 in ((ground (arith, h.0), a), (ground (arith, h.0), b))

module _ (env : Environment) (sdk : Sdk) (cfg : Config) (x : BurnExecutorRunner) where
  open sdk use {TxBuilder}

  -- The signature is of a key of the multisig and verifies, for the account number and sequence.
  pub record IsMember (account_number sequence : ℕ) (builder : TxBuilder) (sig : SignatureV2)
      : Type 0 where
    pub key : Bytes
    pub keyed : sig.pub_key ≡ some key
    pub of_the_keys : contains key x.multisig_keys ≡ true
    pub verified :
        sdk.verify_signature sig
          (record {
            chain_id = cfg.pocket.chain_id;
            account_number = account_number;
            sequence = sequence;
            pub_key = key;
          })
          builder
        ≡ some tt

  validate_signature-returned :
      (sig : SignatureV2) (key : Bytes) (n s : ℕ) (b : TxBuilder) (t : Unit {0})
      → sig.pub_key ≡ some key
      → run env (validate_signature sdk cfg x sig n s b) ≡ returned t
      → sdk.verify_signature sig
          (record {
            chain_id = cfg.pocket.chain_id;
            account_number = n;
            sequence = s;
            pub_key = key;
          })
          b
        ≡ some tt
  unfolding validate_signature
  validate_signature-returned sig key n s b t keyed h =
      let (k, e, h₁) = run-bind-returned env _ _ h in
      let same : k ≡ key = some-injective k key (sym (lift-returned env _ e) ∙ keyed) in
      rw same at (lift-returned env _ h₁)

  key_of-returned :
      (o : Option Bytes) (key : Bytes) → run env (key_of o) ≡ returned key → o ≡ some key
  unfolding key_of run
  key_of-returned none key h = absurd (ground arith)
  key_of-returned (some k) key h = ap some (returned-inj h)

  collect-returned :
      (n s : ℕ) (b : TxBuilder) (sigs : List SignatureV2) (seen : List Bytes)
      (multisig result : List SignatureV2)
      → run env (collect sdk cfg x n s b sigs seen multisig) ≡ returned result
      → All (IsMember n s b) sigs × AreDistinct (keys sigs) × All (IsNew seen) (keys sigs)
  unfolding collect
  collect-returned n s b [] seen multisig result h = (tt, tt, tt)
  collect-returned n s b (sig ∷ sigs) seen multisig result h =
      let (key, has_key, h₀) = run-bind-returned env _ _ h in
      let (t, new, h₁) = run-bind-returned env _ _ h₀ in
      let (u, known, h₂) = run-bind-returned env _ _ h₁ in
      let (v, ok, h₃) = run-bind-returned env _ _ h₂ in
      let (m, added, h₄) = run-bind-returned env _ _ h₃ in
      let keyed : sig.pub_key ≡ some key = key_of-returned sig.pub_key key has_key in
      let (members, distinct, unseen) = collect-returned n s b sigs (key ∷ seen) m result h₄ in
      let (others, rest) = split-IsNew key seen (keys sigs) unseen in
      let new' : not (contains key seen) ≡ true = require-returned env _ t new in
      let member : IsMember n s b sig = record {
        key = key;
        keyed = keyed;
        of_the_keys = require-returned env _ u known;
        verified = validate_signature-returned sig key n s b v keyed ok;
      } in
      let both : AreDistinct (keys (sig ∷ sigs)) × All (IsNew seen) (keys (sig ∷ sigs)) =
        rw keyed ((others, distinct), (ground arith, rest)) in
      ((member, members), both.0, both.1)

  -- The signatures reach the threshold, are of different keys of the multisig, and each verifies.
  pub record IsQuorum (account_number sequence : ℕ) (builder : TxBuilder) (sigs : List SignatureV2)
      : Type 0 where
    pub present : sdk.get_signatures builder ≡ some sigs
    pub enough : x.multisig_threshold ≤ length sigs
    pub members : All (IsMember account_number sequence builder) sigs
    pub distinct : AreDistinct (keys sigs)

  -- Where a transaction gets its multisig signature, the account was answered, and the signatures
  -- that the transaction had are a quorum at the account's number and the sequence: they reach the
  -- threshold, are of different keys of the multisig, and each verifies.
  pub add_multisignature-IsQuorum :
      (sequence : ℕ) (builder complete : TxBuilder)
      → run env (add_multisignature sdk cfg x sequence builder) ≡ returned complete
      → (account : Account) × (sigs : List SignatureV2) × (env (get_account x.multisig_address)
          ≡ some account)
        × IsQuorum account.account_number sequence builder sigs
  unfolding add_multisignature
  add_multisignature-IsQuorum sequence builder complete h =
      let (sigs, present, h₁) = run-bind-returned env _ _ h in
      let (t, enough, h₂) = run-bind-returned env _ _ h₁ in
      let (answer, asked, h₃) = run-bind-returned env _ _ h₂ in
      let (account, found, h₄) = run-bind-returned env _ _ h₃ in
      let (m, collected, h₅) = run-bind-returned env _ _ h₄ in
      let (members, distinct, unseen) =
        collect-returned account.account_number sequence builder sigs [] [] m collected in
      let e : not (length sigs == 0 || ltb (length sigs) x.multisig_threshold) ≡ true =
        require-returned env _ t enough in
      (
        account,
        sigs,
        returned-inj (rw run-ask at asked) ∙ lift-returned env _ found,
        record {
          present = lift-returned env _ present;
          enough = ground arith;
          members = members;
          distinct = distinct;
        },
      )
