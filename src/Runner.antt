-- ===== src/Runner.antt =====
-- app/runner.go and app/service.go: a service that runs again and again until it is stopped. The
-- goroutine of `Start` is a state machine: an event is what lets it go on.
pub mod System
pub mod Turns
pub mod Safety
pub mod Liveness
use wpokt_validator.Base.{
  ℕ, ℤ, pos, Bool, true, false, ◌||◌, Option, none, some, ◌+ℤ◌, eqb_ℤ, if◌then◌else◌, [], not,
}
use wpokt_validator.Base.Bytes.{Bytes, bytes, eqb}

-- `models.RunnerStatus`
pub record RunnerStatus : Type 0 where
  pub pokt_height : Bytes
  pub eth_block_number : Bytes

-- `models.ServiceHealth`, with times in nanoseconds after Go's zero time.
pub record ServiceHealth : Type 0 where
  pub name : Bytes
  pub last_sync_time : ℤ
  pub next_sync_time : ℤ
  pub pokt_height : Bytes
  pub eth_block_number : Bytes
  pub healthy : Bool

-- Where the goroutine of `Start` is: not scheduled yet, in a run, in the select, with its timer
-- fired or not, or returned.
pub data Place : Type 0 where
  created running returned : Place
  selecting : Bool → Place

-- `stop` tells whether the channel of that name is closed.
pub record RunnerService : Type 0 where
  pub name : Bytes
  pub interval : ℤ
  pub stop : Bool
  pub health : ServiceHealth
  pub place : Place

pub data Service : Type 0 where
  runner_service : RunnerService → Service
  empty_service : Service

-- The run that completes brings the runner's status and the time.
pub data Event : Type 0 where
  scheduled timer_fires takes_stop takes_timer : Event
  run_completes : RunnerStatus → ℤ → Event

-- What a goroutine did: `wg.Done` was called or not.
pub record Moved : Type 0 where
  pub service : RunnerService
  pub is_done : Bool

unfoldable pub update_health : RunnerStatus → ℤ → RunnerService → RunnerService
update_health status last_sync_time x = record x {
  health = record {
    name = x.name;
    last_sync_time = last_sync_time;
    next_sync_time = last_sync_time +ℤ x.interval;
    pokt_height = status.pokt_height;
    eth_block_number = status.eth_block_number;
    healthy = true;
  };
}

unfoldable pub goes_to : Place → RunnerService → Option Moved
goes_to place x = some (record { service = record x { place = place }; is_done = false })

-- One event of the loop of `Start`; `none` where the goroutine is not at a place for it.
unfoldable pub start_step : Event → Place → RunnerService → Option Moved
unfolding goes_to update_health
start_step scheduled created x = goes_to running x
start_step scheduled running x = none
start_step scheduled returned x = none
start_step scheduled (selecting fired) x = none
start_step (run_completes status now) created x = none
start_step (run_completes status now) running x =
    goes_to (selecting false) (update_health status now x)
start_step (run_completes status now) returned x = none
start_step (run_completes status now) (selecting fired) x = none
start_step timer_fires created x = none
start_step timer_fires running x = none
start_step timer_fires returned x = none
start_step timer_fires (selecting true) x = none
start_step timer_fires (selecting false) x = goes_to (selecting true) x
start_step takes_timer created x = none
start_step takes_timer running x = none
start_step takes_timer returned x = none
start_step takes_timer (selecting true) x = goes_to running x
start_step takes_timer (selecting false) x = none
start_step takes_stop created x = none
start_step takes_stop running x = none
start_step takes_stop returned x = none
start_step takes_stop (selecting fired) x =
    if x.stop
    then some (record { service = record x { place = returned }; is_done = true })
    else none

abbrev pub no_health : Bytes → ServiceHealth
no_health name = record {
  name = name;
  last_sync_time = pos 0;
  next_sync_time = pos 0;
  pokt_height = [];
  eth_block_number = [];
  healthy = false;
}

-- Whether the runner and the wait group are there are the two tests.
unfoldable pub new_runner_service : Bytes → Bool → Bool → ℤ → Option Service
new_runner_service name has_runner has_wg interval =
    if eqb name [] || not has_runner || not has_wg || eqb_ℤ interval (pos 0)
    then none
    else some (
        runner_service (record {
          name = name;
          interval = interval;
          stop = false;
          health = no_health name;
          place = created;
        }))

abbrev pub empty_service_name : Bytes
empty_service_name = bytes "empty"

-- `Health`, at the time `now`.
unfoldable pub health_of : ℤ → Service → ServiceHealth
health_of now (runner_service x) = x.health
health_of now empty_service = record {
  name = empty_service_name;
  last_sync_time = now;
  next_sync_time = now;
  pokt_height = [];
  eth_block_number = [];
  healthy = true;
}
