-- ===== src/Health.antt =====
-- app/health.go: the document on the health of the services.
pub mod Restart
use wpokt_validator.Base.{
  ℤ, pos, Bool, true, false, ◌||◌, Option, none, some, List, [], ◌∷◌, ◌+ℤ◌, if◌then◌else◌, ◌&&◌,
}
use wpokt_validator.Base.Bytes.{Bytes, bytes, eqb}
use wpokt_validator.Runner.{
  Service, runner_service, empty_service, RunnerService, ServiceHealth, health_of,
  empty_service_name, new_runner_service, Event, start_step, Moved, no_health,
}

abbrev pub health_check_name : Bytes
health_check_name = bytes "HEALTH"

unfoldable pub is_reported : ServiceHealth → Bool
is_reported h = if eqb h.name empty_service_name || eqb h.name [] then false else true

-- `ServiceHealths`, at the time `now`
unfoldable pub service_healths : ℤ → List Service → List ServiceHealth
unfolding health_of is_reported
service_healths now [] = []
service_healths now (s ∷ services) =
    let rest = service_healths now services in
    let h = health_of now s in if is_reported h then h ∷ rest else rest

-- `models.Health` without its version: what stays as it was inserted, and the rest.
pub record Validator : Type 0 where
  pub pokt_vault_address : Bytes
  pub pokt_signers : List Bytes
  pub pokt_public_key : Bytes
  pub pokt_address : Bytes
  pub eth_validators : List Bytes
  pub eth_address : Bytes
  pub wpokt_address : Bytes
  pub hostname : Bytes
  pub validator_id : Bytes

pub record Health : Type 0 where
  pub validator : Validator
  pub created_at : ℤ
  pub mint_disabled : Bool
  pub healthy : Bool
  pub service_healths : List ServiceHealth
  pub updated_at : ℤ

-- The collection of health documents in the database, as a value: `FindOne`, and `UpsertOne` with
-- the change to a document found and the document that is inserted where none is.
pub record HealthStore : Type 1 where
  pub Store : Type 0
  pub find_one : (Health → Bool) → Store → Option Health
  pub upsert_one : (Health → Bool) → (Health → Health) → Health → Store → Option Store

-- The runner, with the services that `SetServices` gave it.
pub record HealthCheckRunner : Type 0 where
  pub validator : Validator
  pub services : List Service

unfoldable pub health_filter : Validator → Health → Bool
health_filter v h =
    eqb h.validator.validator_id v.validator_id && eqb h.validator.hostname v.hostname

-- `$set`
unfoldable pub on_update : ℤ → Bool → List ServiceHealth → Health → Health
on_update now mint_disabled services h = record h {
  mint_disabled = mint_disabled;
  healthy = true;
  service_healths = services;
  updated_at = now;
}

-- `$setOnInsert` with `$set`
unfoldable pub inserted : ℤ → Bool → List ServiceHealth → Validator → Health
inserted now mint_disabled services v = record {
  validator = v;
  created_at = now;
  mint_disabled = mint_disabled;
  healthy = true;
  service_healths = services;
  updated_at = now;
}

module _ (store : HealthStore) where
  open store use {Store}

  unfoldable pub find_last_health : HealthCheckRunner → Store → Option Health
  unfolding health_filter
  find_last_health x db = store.find_one (health_filter x.validator) db

  -- `PostHealth`; `none` where the database answers with an error.
  unfoldable pub post_health : ℤ → Bool → HealthCheckRunner → Store → Option Store
  unfolding health_filter on_update inserted service_healths
  post_health now mint_disabled x db =
      let services = service_healths now x.services in
      store.upsert_one (health_filter x.validator) (on_update now mint_disabled services)
        (inserted now mint_disabled services x.validator) db

-- `serviceHealthMap` of main.go, at a name: the last entry with the name, or the zero value.
unfoldable pub health_named : Bytes → ServiceHealth → List ServiceHealth → ServiceHealth
health_named name found [] = found
health_named name found (h ∷ healths) =
    health_named name (if eqb h.name name then h else found) healths

unfoldable pub healths_of : Option Health → List ServiceHealth
healths_of none = []
healths_of (some h) = h.service_healths

-- What main.go gives to the constructor of the service of a name.
unfoldable pub last_health : Bool → Bytes → Option Health → ServiceHealth
unfolding health_named healths_of
last_health read_last_health name found =
    if read_last_health then health_named name (no_health []) (healths_of found) else no_health []
