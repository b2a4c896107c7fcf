-- ===== src/Setup/Checks.antt =====
-- What the constructors of the six runners build from settings that passed the validation.
use Prim.Native.Nat.{zero, suc}
use wpokt_validator.Base.{
  ℤ, pos, negsuc, Bool, true, false, not, ◌||◌, some, ◌≡◌, ◌≢◌, refl, arith, eqb_ℤ, IsInt64,
  int64-eq_self, [], ◌*◌, ◌+◌, ◌-◌,
}
use wpokt_validator.Base.Bytes.{Bytes, bytes, eqb}
use wpokt_validator.Models.Config.{Config, ServiceConfig}
use wpokt_validator.External.{External}
use wpokt_validator.Effect.{Program, ret, fail, panic, ◌>>=◌, call}
use wpokt_validator.Effect.Ensures.{Ensures, Issues, Ensures-ret, Issues-bind, Ensures-if, Always}
use wpokt_validator.MintMonitor.{MintMonitorRunner}
use wpokt_validator.BurnMonitor.{BurnMonitorRunner}
use wpokt_validator.MintExecutor.{MintExecutorRunner}
use wpokt_validator.BurnSigner.Validation.{BurnSignerRunner}
use wpokt_validator.BurnExecutor.Signatures.{BurnExecutorRunner}
use wpokt_validator.Runner.{Service, empty_service, new_runner_service}
use wpokt_validator.Runner.Safety.{IsNew}
use wpokt_validator.Settings.Signers.{Accounts}
use wpokt_validator.Settings.Valid.{IsPaced}
use wpokt_validator.Setup.{
  Links, Built, nanoseconds, duration_of, serve, turned_off, new_mint_monitor, new_burn_monitor,
  new_mint_executor, new_burn_signer, new_burn_executor,
}

-- The interval, in nanoseconds, is an int64.
abbrev pub IsShort : ServiceConfig → Type 0
IsShort c = IsInt64 (nanoseconds c.interval_millis)

-- There is a service, which has not been started.
pub record IsBuilt {A : Type 0} (b : Built A) : Type 0 where
  pub service : Service
  pub built : b.service ≡ some service
  pub fresh : IsNew service

duration_of-nonzero :
    (z : ℤ) → IsInt64 (nanoseconds z) → z ≢ pos 0 → eqb_ℤ (duration_of z) (pos 0) ≡ false
unfolding duration_of nanoseconds
duration_of-nonzero (pos zero) h n = absurd (n refl)
duration_of-nonzero (pos (suc k)) h n = rw (int64-eq_self (pos (suc k * 1000000)) h) (ground arith)
duration_of-nonzero (negsuc k) h n =
    rw (int64-eq_self (negsuc ((k + 1) * 1000000 - 1)) h) (ground arith)

new_runner_service-IsNew :
    (name : Bytes) (d : ℤ)
    → eqb name [] ≡ false
    → eqb_ℤ d (pos 0) ≡ false
    → (s : Service) × (new_runner_service name true true d ≡ some s) × IsNew s
unfolding new_runner_service
new_runner_service-IsNew name d e f = rw (e, f) (_, refl, (refl, refl))

pub serve-IsBuilt :
    {A : Type 0} (c : ServiceConfig) (name : Bytes) (x : A)
    → eqb name [] ≡ false
    → IsPaced c
    → IsShort c
    → c.enabled ≡ true
    → IsBuilt (serve name c.interval_millis x)
unfolding serve
serve-IsBuilt c name x e paced short on =
    let got =
      new_runner_service-IsNew name (duration_of c.interval_millis) e
        (duration_of-nonzero c.interval_millis short (paced on)) in
    record { service = got.0; built = got.1; fresh = got.2 }

pub turned_off-IsBuilt : {A : Type 0} → IsBuilt {A = A} turned_off
turned_off-IsBuilt = record { service = empty_service; built = refl; fresh = tt }

pub Issues-any : {A : Type 0} (m : Program A) → Issues (λ _. Unit {0}) m
Issues-any m = record { always = go m }
  where
    go : {A : Type 0} (n : Program A) → Always (λ _. Unit {0}) (λ (_ : A). Unit {0}) n
    go (ret a) = tt
    go fail = tt
    go panic = tt
    go (call r k) = (tt, λ a t. go (k a))

pub turned_on : (b c : Bool) → not b || c ≡ false → b ≡ true
turned_on b c h = ground arith

-- Whatever the first part does, the rest ensures.
pub skip :
    {A B : Type 0} {Q : B → Type 0} (m : Program A) (f : A → Program B)
    → ((a : A) → Ensures (λ _. Unit {0}) Q (f a))
    → Ensures (λ _. Unit {0}) Q (m >>= f)
skip m f h = Issues-bind m f (Issues-any m) h

module _ (ext : External) (accounts : Accounts) (links : Links) (cfg : Config) where
  abbrev Builds : {A : Type 0} → Program (Built A) → Type 0
  Builds m = Ensures (λ _. Unit {0}) IsBuilt m

  new_mint_monitor-IsBuilt :
      (last : Bytes)
      → IsPaced cfg.mint_monitor
      → IsShort cfg.mint_monitor
      → Builds (new_mint_monitor ext accounts links cfg last)
  unfolding new_mint_monitor eqb
  new_mint_monitor-IsBuilt last paced short =
      Ensures-if (not cfg.mint_monitor.enabled) _ _ (λ off. Ensures-ret _ turned_off-IsBuilt)
        (λ on.
          let on' = turned_on cfg.mint_monitor.enabled false (ground (arith, on)) in
          let served : (x : MintMonitorRunner)
              → IsBuilt (serve (bytes "MINT MONITOR") cfg.mint_monitor.interval_millis x) =
            (λ x. serve-IsBuilt cfg.mint_monitor (bytes "MINT MONITOR") x refl paced short on') in
          search (skip, Ensures-ret, served) depth 30)

  new_burn_monitor-IsBuilt :
      (last : Bytes)
      → IsPaced cfg.burn_monitor
      → IsShort cfg.burn_monitor
      → Builds (new_burn_monitor ext accounts links cfg last)
  unfolding new_burn_monitor eqb
  new_burn_monitor-IsBuilt last paced short =
      Ensures-if (not cfg.burn_monitor.enabled) _ _ (λ off. Ensures-ret _ turned_off-IsBuilt)
        (λ on.
          let on' = turned_on cfg.burn_monitor.enabled false (ground (arith, on)) in
          let served : (x : BurnMonitorRunner)
              → IsBuilt (serve (bytes "BURN MONITOR") cfg.burn_monitor.interval_millis x) =
            (λ x. serve-IsBuilt cfg.burn_monitor (bytes "BURN MONITOR") x refl paced short on') in
          search (skip, Ensures-ret, served) depth 30)

  new_mint_executor-IsBuilt :
      (last : Bytes)
      → IsPaced cfg.mint_executor
      → IsShort cfg.mint_executor
      → Builds (new_mint_executor ext accounts links cfg last)
  unfolding new_mint_executor eqb
  new_mint_executor-IsBuilt last paced short =
      Ensures-if (not cfg.mint_executor.enabled || cfg.pocket.mint_disabled) _ _
        (λ off. Ensures-ret _ turned_off-IsBuilt)
        (λ on.
          let on' =
            turned_on cfg.mint_executor.enabled cfg.pocket.mint_disabled (ground (arith, on)) in
          let served : (x : MintExecutorRunner)
              → IsBuilt (serve (bytes "MINT EXECUTOR") cfg.mint_executor.interval_millis x) =
            (λ x. serve-IsBuilt cfg.mint_executor (bytes "MINT EXECUTOR") x refl paced short on') in
          search (skip, Ensures-ret, served) depth 30)

  new_burn_signer-IsBuilt :
      IsPaced cfg.burn_signer
      → IsShort cfg.burn_signer
      → Builds (new_burn_signer ext accounts links cfg)
  unfolding new_burn_signer eqb
  new_burn_signer-IsBuilt paced short =
      Ensures-if (not cfg.burn_signer.enabled) _ _ (λ off. Ensures-ret _ turned_off-IsBuilt)
        (λ on.
          let on' = turned_on cfg.burn_signer.enabled false (ground (arith, on)) in
          let served : (x : BurnSignerRunner)
              → IsBuilt (serve (bytes "BURN SIGNER") cfg.burn_signer.interval_millis x) =
            (λ x. serve-IsBuilt cfg.burn_signer (bytes "BURN SIGNER") x refl paced short on') in
          search (skip, Ensures-ret, served) depth 30)

  new_burn_executor-IsBuilt :
      IsPaced cfg.burn_executor
      → IsShort cfg.burn_executor
      → Builds (new_burn_executor ext accounts links cfg)
  unfolding new_burn_executor eqb
  new_burn_executor-IsBuilt paced short =
      Ensures-if (not cfg.burn_executor.enabled) _ _ (λ off. Ensures-ret _ turned_off-IsBuilt)
        (λ on.
          let on' = turned_on cfg.burn_executor.enabled false (ground (arith, on)) in
          let served : (x : BurnExecutorRunner)
              → IsBuilt (serve (bytes "BURN EXECUTOR") cfg.burn_executor.interval_millis x) =
            (λ x. serve-IsBuilt cfg.burn_executor (bytes "BURN EXECUTOR") x refl paced short on') in
          search (skip, Ensures-ret, served) depth 30)
