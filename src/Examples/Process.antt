-- ===== src/Examples/Process.antt =====
-- The process and its settings, in the small world: the start, the shutdown and a restart.
use wpokt_validator.Base.{pos, true, false, List, [], ◌∷◌, ◌≡◌, refl, ◌≢◌, ◌≤◌, ◌⊎◌, ◌+◌, All}
use wpokt_validator.Base.Bytes.{bytes}
use wpokt_validator.Runner.{
  Service, runner_service, empty_service, RunnerService, RunnerStatus, no_health, created,
  selecting, update_health, scheduled, run_completes, timer_fires, takes_stop, returned,
}
use wpokt_validator.Runner.System.{
  System, Action, at_stopped, at_others, signal, stop_next, wait_all, wait_returns, waiting, ended,
  steps, crashed,
}
use wpokt_validator.Runner.Turns.{unfinished}
use wpokt_validator.Runner.Safety.{Reach, begin, IsFinished, wait_group-counts}
use wpokt_validator.Runner.Liveness.{steps-Reach, wait-ends, CanGoOn}

abbrev service : RunnerService
service = record {
  name = bytes "MINT MONITOR";
  interval = pos 5;
  stop = false;
  health = no_health (bytes "MINT MONITOR");
  place = created;
}

abbrev services : List Service
services = runner_service service ∷ empty_service ∷ []

abbrev status : RunnerStatus
status = record { pokt_height = bytes "7"; eth_block_number = [] }

abbrev ran : RunnerService
ran = record (update_health status (pos 3) service) { stop = true; place = selecting false }

-- One run of the monitor, the signal, and both services stopped.
abbrev to_wait : List Action
to_wait =
    at_others 0 scheduled
    ∷ at_others 0 (run_completes status (pos 3))
    ∷ signal
    ∷ stop_next
    ∷ stop_next
    ∷ wait_all
    ∷ []

abbrev at_wait : System
at_wait = record {
  stopped = empty_service ∷ runner_service ran ∷ [];
  others = [];
  wg = 1;
  main = waiting;
}

abbrev at_end : System
at_end = record {
  stopped = empty_service ∷ runner_service (record ran { place = returned }) ∷ [];
  others = [];
  wg = 0;
  main = ended;
}

abbrev to_end : List Action
to_end = at_stopped 1 timer_fires ∷ at_stopped 1 takes_stop ∷ wait_returns ∷ []

Reach-at_wait : Reach services at_wait
unfolding steps
Reach-at_wait = steps-Reach services to_wait begin refl

wait_group-counts_example :
    (at_end.main ≢ crashed)
    × (0 ≡ unfinished at_end.stopped + 0)
    × (at_end.main ≡ ended → (at_end.others ≡ []) × All IsFinished at_end.stopped)
unfolding steps
wait_group-counts_example =
    wait_group-counts services at_end ((refl, refl), (tt, tt))
      (steps-Reach services to_end Reach-at_wait refl)

wait-ends_example : (3 ≤ 9) × ((at_end.main ≡ ended) ⊎ CanGoOn at_end)
unfolding steps
wait-ends_example =
    wait-ends services at_wait at_end to_end ((refl, refl), (tt, tt)) Reach-at_wait refl
      (refl, (refl, (refl, tt))) refl
