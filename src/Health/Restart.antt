-- ===== src/Health/Restart.antt =====
-- A start of main.go after a health report: app/health.go, and the start of the monitors in
-- cosmos/monitor.go and eth/monitor.go.
use wpokt_validator.Base.{
  ℤ, pos, Bool, true, false, some, List, [], ◌∷◌, ◌++◌, ltb_ℤ, IsInt64, if◌then◌else◌, ◌≡◌, All,
  Bool-cases, ◌⊎◌, inl, inr, ap, refl, ◌∙◌, ◌≢◌, arith,
}
use wpokt_validator.Base.Bytes.{Bytes, bytes, eqb, eqb_refl}
use wpokt_validator.Base.Decimal.{parse_int, format_int, set_string, in_range}
use wpokt_validator.Base.Decimal.RoundTrip.{parse_int-format_int}
use wpokt_validator.Models.Config.{Config}
use wpokt_validator.MintMonitor.{MintMonitorRunner, init_start_height, status_height}
use wpokt_validator.BurnMonitor.{BurnMonitorRunner, init_start_block_number}
use wpokt_validator.Runner.{
  Service, runner_service, RunnerService, RunnerStatus, ServiceHealth, health_of, no_health,
  update_health,
}
use wpokt_validator.Health.{
  Health, HealthStore, HealthCheckRunner, Validator, health_filter, on_update, inserted,
  is_reported, service_healths, find_last_health, post_health, health_named, last_health,
  healths_of,
}

unfoldable pub mint_monitor_status : MintMonitorRunner → RunnerStatus
mint_monitor_status x = record { pokt_height = status_height x; eth_block_number = [] }

unfoldable pub burn_monitor_status : BurnMonitorRunner → RunnerStatus
burn_monitor_status x = record {
  pokt_height = [];
  eth_block_number = format_int x.start_block_number;
}

-- What an upsert of MongoDB leaves to be found: the document inserted, or one that was changed.
abbrev pub IsUpsert : HealthStore → Type 0
IsUpsert store =
    (f : Health → Bool) (set : Health → Health) (new : Health) (db db' : store.Store)
    → store.upsert_one f set new db ≡ some db'
    → f new ≡ true
    → ((h : Health) → f h ≡ true → f (set h) ≡ true)
    → (h : Health) × (store.find_one f db' ≡ some h)
      × ((h ≡ new) ⊎ ((old : Health) × (h ≡ set old)))

health_filter-set :
    (v : Validator) (now : ℤ) (b : Bool) (l : List ServiceHealth) (h : Health)
    → health_filter v h ≡ true
    → health_filter v (on_update now b l h) ≡ true
unfolding health_filter on_update
health_filter-set v now b l h e = e

health_filter-inserted :
    (v : Validator) (now : ℤ) (b : Bool) (l : List ServiceHealth)
    → health_filter v (inserted now b l v) ≡ true
unfolding health_filter inserted
health_filter-inserted v now b l = rw (eqb_refl v.validator_id) (eqb_refl v.hostname)

health_named-append :
    (name : Bytes) (found : ServiceHealth) (xs ys : List ServiceHealth)
    → health_named name found (xs ++ ys) ≡ health_named name (health_named name found xs) ys
unfolding health_named
health_named-append name found [] ys = refl
health_named-append name found (x ∷ xs) ys =
    health_named-append name (if eqb x.name name then x else found) xs ys

service_healths-append :
    (now : ℤ) (xs ys : List Service)
    → service_healths now (xs ++ ys) ≡ service_healths now xs ++ service_healths now ys
unfolding service_healths
service_healths-append now [] ys = refl
service_healths-append now (x ∷ xs) ys = elim (Bool-cases (is_reported (health_of now x))) [
  | inl e ↦ rw e (ap (◌∷◌ (health_of now x)) (service_healths-append now xs ys))
  | inr e ↦ rw e (service_healths-append now xs ys)
]

health_named-other :
    (name : Bytes) (found h : ServiceHealth) (hs : List ServiceHealth)
    → eqb h.name name ≡ false
    → health_named name found (h ∷ hs) ≡ health_named name found hs
unfolding health_named
health_named-other name found h hs e = rw e refl

abbrev pub IsOther : ℤ → Bytes → Service → Type 0
IsOther now name s = eqb (health_of now s).name name ≡ false

health_named-IsOther :
    (now : ℤ) (name : Bytes) (found : ServiceHealth) (xs : List Service)
    → All (IsOther now name) xs
    → health_named name found (service_healths now xs) ≡ found
unfolding health_named service_healths
health_named-IsOther now name found [] h = refl
health_named-IsOther now name found (x ∷ xs) h = elim (Bool-cases (is_reported (health_of now x))) [
  | inl e ↦ rw e (
      health_named-other name found (health_of now x) (service_healths now xs) h.0
      ∙ health_named-IsOther now name found xs h.1)
  | inr e ↦ rw e (health_named-IsOther now name found xs h.1)
]

-- A report that is stored is found again, with the health of a service under its name.
posted-found :
    (store : HealthStore) (now : ℤ) (b : Bool) (x : HealthCheckRunner) (db db' : store.Store)
    → IsUpsert store
    → post_health store now b x db ≡ some db'
    → healths_of (find_last_health store x db') ≡ service_healths now x.services
unfolding post_health find_last_health healths_of on_update inserted
posted-found store now b x db db' law posted =
    let l = service_healths now x.services in
    let got =
      law (health_filter x.validator) (on_update now b l) (inserted now b l x.validator) db db'
        posted (health_filter-inserted x.validator now b l)
        (health_filter-set x.validator now b l) in
    rw got.1 (elim got.2 [ inl e ↦ rw e refl | inr e ↦ rw e.1 refl ])

health_named-here :
    (name : Bytes) (found h : ServiceHealth) (hs : List ServiceHealth)
    → h.name ≡ name
    → health_named name found (h ∷ hs) ≡ health_named name h hs
unfolding health_named
health_named-here name found h hs e = rw e (rw (eqb_refl name) refl)

reported-named :
    (now : ℤ) (name : Bytes) (found : ServiceHealth) (s : RunnerService) (after : List Service)
    → s.health.name ≡ name
    → is_reported s.health ≡ true
    → All (IsOther now name) after
    → health_named name found (service_healths now (runner_service s ∷ after)) ≡ s.health
unfolding service_healths
reported-named now name found s after e r others = rw r (
    health_named-here name found s.health (service_healths now after) e
    ∙ health_named-IsOther now name s.health after others)

-- The report of a service, as the next start of the process finds it.
last_health-posted :
    (store : HealthStore) (now : ℤ) (b : Bool) (x : HealthCheckRunner) (db db' : store.Store)
    (before after : List Service) (s : RunnerService) (name : Bytes)
    → IsUpsert store
    → post_health store now b x db ≡ some db'
    → x.services ≡ before ++ runner_service s ∷ after
    → s.health.name ≡ name
    → is_reported (no_health name) ≡ true
    → All (IsOther now name) after
    → last_health true name (find_last_health store x db') ≡ s.health
unfolding last_health is_reported
last_health-posted store now b x db db' before after s name law posted services e r others =
    let l = service_healths-append now before (runner_service s ∷ after) in
    let stored = posted-found store now b x db db' law posted in
    ap (health_named name (no_health [])) (stored ∙ ap (service_healths now) services ∙ l)
    ∙ health_named-append name (no_health []) (service_healths now before) _
    ∙ reported-named now name _ s after e (rw e r) others

abbrev mint_monitor_name : Bytes
mint_monitor_name = bytes "MINT MONITOR"

abbrev burn_monitor_name : Bytes
burn_monitor_name = bytes "BURN MONITOR"

parse_int-[] : (z : ℤ) → parse_int [] ≢ some z
unfolding parse_int set_string in_range
parse_int-[] z e = ground arith

init_start_height-status :
    (cfg : Config) (x y : MintMonitorRunner)
    → IsInt64 x.start_height
    → ltb_ℤ (pos 0) x.start_height ≡ true
    → init_start_height cfg y (status_height x) ≡ record y { start_height = x.start_height }
unfolding init_start_height status_height
init_start_height-status cfg x y r p =
    go (format_int x.start_height) (parse_int-format_int x.start_height r)
  where
    go :
        (s : Bytes)
        → parse_int s ≡ some x.start_height
        → init_start_height cfg y s ≡ record y { start_height = x.start_height }
    go [] e = absurd (parse_int-[] x.start_height e)
    go (c ∷ s) e = rw e (rw p refl)

init_start_block_number-status :
    (cfg : Config) (x y : BurnMonitorRunner)
    → IsInt64 x.start_block_number
    → ltb_ℤ (pos 0) x.start_block_number ≡ true
    → init_start_block_number cfg y (format_int x.start_block_number)
      ≡ record y { start_block_number = x.start_block_number }
unfolding init_start_block_number
init_start_block_number-status cfg x y r p =
    rw (parse_int-format_int x.start_block_number r) (rw p refl)

-- The mint monitor resumes where it was. Its last run ended with a start height above zero, the
-- health report that is posted after it is stored, and no later service of the list reports the
-- monitor's name: then the process that starts next, and reads the last report, starts the
-- monitor at that height, whatever its configured height is.
pub mint_monitor-resumes :
    (store : HealthStore) (cfg : Config) (now t : ℤ) (b : Bool) (x : HealthCheckRunner)
    (db db' : store.Store) (before after : List Service) (s : RunnerService)
    (m y : MintMonitorRunner)
    → IsUpsert store
    → s.name ≡ mint_monitor_name
    → IsInt64 m.start_height
    → ltb_ℤ (pos 0) m.start_height ≡ true
    → x.services ≡ before ++ runner_service (update_health (mint_monitor_status m) t s) ∷ after
    → All (IsOther now mint_monitor_name) after
    → post_health store now b x db ≡ some db'
    → init_start_height cfg y
        (last_health true mint_monitor_name (find_last_health store x db')).pokt_height
      ≡ record y { start_height = m.start_height }
unfolding update_health mint_monitor_status is_reported eqb
mint_monitor-resumes store cfg now t b x db db' before after s m y law name r p services others
      posted =
    let found =
      last_health-posted store now b x db db' before after
        (update_health (mint_monitor_status m) t s) mint_monitor_name law posted services name refl
        others in
    rw found (init_start_height-status cfg m y r p)

-- The burn monitor resumes where it was, in the same way, at its start block number.
pub burn_monitor-resumes :
    (store : HealthStore) (cfg : Config) (now t : ℤ) (b : Bool) (x : HealthCheckRunner)
    (db db' : store.Store) (before after : List Service) (s : RunnerService)
    (m y : BurnMonitorRunner)
    → IsUpsert store
    → s.name ≡ burn_monitor_name
    → IsInt64 m.start_block_number
    → ltb_ℤ (pos 0) m.start_block_number ≡ true
    → x.services ≡ before ++ runner_service (update_health (burn_monitor_status m) t s) ∷ after
    → All (IsOther now burn_monitor_name) after
    → post_health store now b x db ≡ some db'
    → init_start_block_number cfg y
        (last_health true burn_monitor_name (find_last_health store x db')).eth_block_number
      ≡ record y { start_block_number = m.start_block_number }
unfolding update_health burn_monitor_status is_reported eqb
burn_monitor-resumes store cfg now t b x db db' before after s m y law name r p services others
      posted =
    let found =
      last_health-posted store now b x db db' before after
        (update_health (burn_monitor_status m) t s) burn_monitor_name law posted services name refl
        others in
    rw found (init_start_block_number-status cfg m y r p)
