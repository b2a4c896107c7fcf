-- ===== src/Examples/Start.antt =====
-- A start of the process in the small world: the last health report and the settings.
use mathlib.Core.Option.{some-injective}
use wpokt_validator.Base.{
  pos, Bool, true, false, Option, none, some, List, [], ◌∷◌, ◌≡◌, refl, if◌then◌else◌, inl, inr,
  Bool-cases, sym, arith, ◌⊎◌,
}
use wpokt_validator.Base.Bytes.{bytes, eqb}
use wpokt_validator.MintMonitor.{MintMonitorRunner, init_start_height}
use wpokt_validator.Runner.{
  Service, runner_service, empty_service, RunnerService, no_health, created, update_health,
}
use wpokt_validator.Health.{
  Health, HealthStore, HealthCheckRunner, Validator, find_last_health, post_health, last_health,
}
use wpokt_validator.Health.Restart.{IsUpsert, mint_monitor_status, mint_monitor-resumes}
use wpokt_validator.Examples.{cfg, validator}

-- The collection as a list: the first document that matches is found, and changed.
find_health : (Health → Bool) → List Health → Option Health
find_health f [] = none
find_health f (h ∷ hs) = if f h then some h else find_health f hs

upsert_health : (Health → Bool) → (Health → Health) → Health → List Health → List Health
upsert_health f set new [] = new ∷ []
upsert_health f set new (h ∷ hs) = if f h then set h ∷ hs else h ∷ upsert_health f set new hs

abbrev store : HealthStore
store = record {
  Store = List Health;
  find_one = find_health;
  upsert_one = λ f set new db. some (upsert_health f set new db);
}

find-upsert :
    (f : Health → Bool) (set : Health → Health) (new : Health) (db : List Health)
    → f new ≡ true
    → ((h : Health) → f h ≡ true → f (set h) ≡ true)
    → (h : Health) × (find_health f (upsert_health f set new db) ≡ some h)
      × ((h ≡ new) ⊎ ((old : Health) × (h ≡ set old)))
unfolding find_health upsert_health
find-upsert f set new [] fits keeps = (new, rw fits refl, inl refl)
find-upsert f set new (h ∷ hs) fits keeps = elim (Bool-cases (f h)) [
  | inl e ↦ (set h, rw e (rw (keeps h e) refl), inr (h, refl))
  | inr e ↦ (let rest = find-upsert f set new hs fits keeps in (rest.0, rw e (rw e rest.1), rest.2))
]

store-IsUpsert : IsUpsert store
unfolding upsert_health
store-IsUpsert f set new db db' e fits keeps =
    rw (sym (some-injective _ db' e)) (find-upsert f set new db fits keeps)

abbrev this_validator : Validator
this_validator = record {
  pokt_vault_address = bytes "pokt1vault0000000000";
  pokt_signers = [];
  pokt_public_key = [];
  pokt_address = [];
  eth_validators = validator ∷ [];
  eth_address = validator;
  wpokt_address = bytes "0xaa";
  hostname = bytes "host";
  validator_id = bytes "wpokt-validator-01";
}

abbrev mint_monitor : MintMonitorRunner
mint_monitor = record {
  wpokt_address = bytes "0xaa";
  vault_address = bytes "pokt1vault0000000000";
  start_height = pos 7;
  current_height = pos 9;
  minimum_amount = pos 10;
  maximum_amount = pos 100;
}

abbrev fresh : MintMonitorRunner
fresh = record mint_monitor { start_height = pos 0 }

abbrev service : RunnerService
service = record {
  name = bytes "MINT MONITOR";
  interval = pos 5;
  stop = false;
  health = no_health (bytes "MINT MONITOR");
  place = created;
}

abbrev checker : HealthCheckRunner
checker = record {
  validator = this_validator;
  services =
      runner_service (update_health (mint_monitor_status mint_monitor) (pos 3) service)
      ∷ empty_service
      ∷ [];
}

abbrev posted : List Health
posted = elim (post_health store (pos 4) false checker []) [ none ↦ [] | some db ↦ db ]

mint_monitor-resumes_example :
    init_start_height cfg fresh
      (last_health true (bytes "MINT MONITOR") (find_last_health store checker posted)).pokt_height
    ≡ record fresh { start_height = pos 7 }
unfolding eqb wpokt_validator.Runner.health_of post_health
mint_monitor-resumes_example =
    mint_monitor-resumes store cfg (pos 4) (pos 3) false checker [] posted [] (empty_service ∷ [])
      service mint_monitor fresh store-IsUpsert refl (omega arith, omega arith) refl refl (refl, tt)
      refl
