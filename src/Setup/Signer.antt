-- ===== src/Setup/Signer.antt =====
-- The start of the mint signer: what NewMintSigner has compared before there is a service.
use wpokt_validator.Base.{
  ℤ, pos, Bool, true, false, not, ◌||◌, Option, none, some, length, ◌≡◌, ◌≢◌, refl, arith, eqb_ℤ,
  ltb_ℤ, eqb_ℤ→eq, ◌∙◌, ap, sym,
}
use wpokt_validator.Base.Bytes.{bytes, eqb, equal_fold}
use wpokt_validator.Base.Decimal.{set_string}
use wpokt_validator.Models.Config.{Config}
use wpokt_validator.External.{External}
use wpokt_validator.Effect.{ask, require, validator_count, signer_threshold}
use wpokt_validator.Effect.Run.{Environment, returned, run}
use wpokt_validator.Effect.Traces.{IsMatching, Ensures-returned}
use wpokt_validator.Effect.Ensures.{
  Ensures, Ensures-ret, Ensures-fail, Ensures-panic, Ensures-require, Ensures-bind, Ensures-if,
}
use wpokt_validator.MintSigner.{
  set_count, set_threshold, update_validator_count, update_signer_threshold,
}
use wpokt_validator.MintSigner.Nonce.{MintSignerRunner}
use wpokt_validator.Settings.Signers.{Accounts}
use wpokt_validator.Settings.Valid.{IsPaced}
use wpokt_validator.Setup.{
  DomainData, check_domain, Links, Built, serve, check_limit, new_mint_signer,
}
use wpokt_validator.Setup.Checks.{
  IsShort, IsBuilt, serve-IsBuilt, turned_off-IsBuilt, turned_on, skip,
}

-- The domain that the controller answers is of the chain and the controller of the settings.
pub record IsDomain (links : Links) (cfg : Config) : Type 0 where
  pub domain : DomainData
  pub answered : links.domain ≡ some domain
  pub chain : set_string cfg.ethereum.chain_id ≡ some domain.chain_id
  pub controller : equal_fold domain.verifying_contract cfg.ethereum.mint_controller_address ≡ true

-- The chain has a height, the contract counts the validators of the settings and asks for no more
-- signatures than there are, and the fee is within the limit.
abbrev pub Agrees : Links → Config → Option MintSignerRunner → Type 0
Agrees links cfg none = Unit
Agrees links cfg (some x) =
    (x.cosmos_height ≢ pos 0)
    × (x.validator_count ≡ pos (length cfg.ethereum.validator_addresses))
    × (ltb_ℤ x.validator_count x.signer_threshold ≡ false)
    × (ltb_ℤ x.maximum_amount x.minimum_amount ≡ false)
    × IsDomain links cfg

set_count-height :
    (x : MintSignerRunner) (o : Option ℤ) → (set_count x o).cosmos_height ≡ x.cosmos_height
set_count-height x none = refl
set_count-height x (some n) = refl

set_threshold-height :
    (x : MintSignerRunner) (o : Option ℤ) → (set_threshold x o).cosmos_height ≡ x.cosmos_height
set_threshold-height x none = refl
set_threshold-height x (some n) = refl

count-height :
    (x : MintSignerRunner)
    → Ensures (λ _. Unit {0}) (λ y. y.cosmos_height ≡ x.cosmos_height) (update_validator_count x)
unfolding update_validator_count
count-height x = skip (ask validator_count) _ (λ o. Ensures-ret _ (set_count-height x o))

threshold-height :
    (x : MintSignerRunner)
    → Ensures (λ _. Unit {0}) (λ y. y.cosmos_height ≡ x.cosmos_height) (update_signer_threshold x)
unfolding update_signer_threshold
threshold-height x = skip (ask signer_threshold) _ (λ o. Ensures-ret _ (set_threshold-height x o))

not-true : (b : Bool) → not b ≡ true → b ≡ false
not-true b h = ground arith

nonzero : (z : ℤ) → not (eqb_ℤ z (pos 0)) ≡ true → z ≢ pos 0
nonzero z h e = let h' : not (eqb_ℤ (pos 0) (pos 0)) ≡ true = rw e at h in ground arith

require-Ensures :
    {Q : Type 0} (b : Bool) → (b ≡ true → Q) → Ensures (λ _. Unit {0}) (λ _. Q) (require b)
unfolding require
require-Ensures true h = Ensures-ret tt (h refl)
require-Ensures false h = Ensures-fail

check_domain_lem :
    (links : Links) (cfg : Config) (id : Option ℤ) (domain : Option DomainData)
    → set_string cfg.ethereum.chain_id ≡ id
    → links.domain ≡ domain
    → Ensures (λ _. Unit {0}) (λ _. IsDomain links cfg) (check_domain cfg id domain)
unfolding check_domain
check_domain_lem links cfg none domain e f = Ensures-fail
check_domain_lem links cfg (some id) none e f = Ensures-panic
check_domain_lem links cfg (some id) (some d) e f =
    Ensures-bind (require (eqb_ℤ d.chain_id id)) _ (Ensures-require _) (λ t same.
      require-Ensures _ (λ matched. record {
        domain = d;
        answered = f;
        chain = e ∙ ap some (sym (eqb_ℤ→eq _ _ same));
        controller = matched;
      }))

check_limit_lem :
    (minimum : ℤ) (answer : Option ℤ)
    → Ensures (λ _. Unit {0}) (λ limit. ltb_ℤ limit minimum ≡ false) (check_limit minimum answer)
unfolding check_limit
check_limit_lem minimum none = Ensures-panic
check_limit_lem minimum (some limit) =
    Ensures-bind (require (not (ltb_ℤ limit minimum))) _ (Ensures-require _)
      (λ _ h. Ensures-ret limit (not-true _ h))

new_mint_signer-Ensures :
    (ext : External) (accounts : Accounts) (links : Links) (cfg : Config)
    → IsPaced cfg.mint_signer
    → IsShort cfg.mint_signer
    → Ensures
        (λ _. Unit {0})
        (λ b. IsBuilt b × Agrees links cfg b.runner)
        (new_mint_signer ext accounts links cfg)
unfolding new_mint_signer serve eqb
new_mint_signer-Ensures ext accounts links cfg paced short =
    Ensures-if (not cfg.mint_signer.enabled || cfg.pocket.mint_disabled) _ _
      (λ off. Ensures-ret _ (turned_off-IsBuilt, tt))
      (λ on. skip _ _ (λ address. skip _ _ (λ _. skip _ _ (λ _. skip _ _ (λ _. skip _ _ (λ client.
        skip _ _ (λ seen. Ensures-bind _ _ (Ensures-require _) (λ _ high.
          Ensures-bind _ _ (count-height seen) (λ counted c.
            Ensures-bind _ _ (threshold-height counted) (λ x t.
              Ensures-bind _ _ (Ensures-require _) (λ _ count.
                Ensures-bind _ _ (Ensures-require _) (λ _ enough.
                  Ensures-bind _ _ (check_domain_lem links cfg _ _ refl refl) (λ _ domain.
                    skip _ _ (λ answer.
                      Ensures-bind _ _ (check_limit_lem x.minimum_amount answer) (λ limit l.
                        Ensures-ret _ (
                          serve-IsBuilt cfg.mint_signer (bytes "MINT SIGNER") _ refl paced short
                              (turned_on cfg.mint_signer.enabled cfg.pocket.mint_disabled on),
                          (
                            (λ e. nonzero seen.cosmos_height high (rw (t, c) at e)),
                            eqb_ℤ→eq _ _ count,
                            not-true _ enough,
                            l,
                            domain,
                          ),
                        ))))))))))))))))

-- A start of the mint signer that does not end the process, if its interval is not zero and fits
-- an int64 in nanoseconds, gives a service, and unless it is turned off a runner with a height of
-- the chain, with as many validators as the settings, a threshold that they can reach, and a limit
-- that the fee does not exceed; and the controller's domain was read, and is of the chain and of
-- the controller's address in the settings.
pub new_mint_signer-Agrees :
    (ext : External) (accounts : Accounts) (links : Links) (cfg : Config) (env : Environment)
    (b : Built MintSignerRunner)
    → IsMatching env
    → IsPaced cfg.mint_signer
    → IsShort cfg.mint_signer
    → run env (new_mint_signer ext accounts links cfg) ≡ returned b
    → IsBuilt b × Agrees links cfg b.runner
new_mint_signer-Agrees ext accounts links cfg env b matching paced short e =
    Ensures-returned env _ b matching (new_mint_signer-Ensures ext accounts links cfg paced short) e
