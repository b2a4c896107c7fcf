-- ===== src/Runner/Turns.antt =====
-- What a goroutine of app/runner.go does to the list of services that it stands in.
use Prim.Native.Nat.{zero, suc}
use wpokt_validator.Base.{
  ℕ, ◌+◌, Bool, true, false, Option, none, some, List, [], ◌∷◌, length, All, ◌≡◌, refl, arith, ap,
}
use wpokt_validator.Runner.{
  Service, runner_service, empty_service, RunnerService, Place, created, running, returned,
  selecting, Event, scheduled, timer_fires, takes_stop, takes_timer, run_completes, Moved,
  start_step, goes_to, update_health,
}
use wpokt_validator.Runner.System.{Turned, turn, replace_head, keep_head}

-- Whether the goroutine of `Start` has yet to return.
unfoldable pub is_unreturned : Place → ℕ
is_unreturned created = 1
is_unreturned running = 1
is_unreturned returned = 0
is_unreturned (selecting fired) = 1

unfoldable pub is_unfinished : Service → ℕ
unfolding is_unreturned
is_unfinished (runner_service x) = is_unreturned x.place
is_unfinished empty_service = 0

unfoldable pub unfinished : List Service → ℕ
unfolding is_unfinished
unfinished [] = 0
unfinished (s ∷ services) = is_unfinished s + unfinished services

unfoldable pub bit : Bool → ℕ
bit true = 1
bit false = 0

abbrev pub IsStopped : Service → Type 0
IsStopped (runner_service x) = x.stop ≡ true
IsStopped empty_service = Unit

abbrev pub IsOpen : Service → Type 0
IsOpen (runner_service x) = (x.stop ≡ false) × (is_unreturned x.place ≡ 1)
IsOpen empty_service = Unit

one_of : (b : Bool) {p q : ℕ} → q ≡ p + bit b → b ≡ false → q ≡ 1 → p ≡ 1
unfolding bit
one_of true counted calm is_one = ground arith
one_of false counted calm is_one = omega (arith, counted, is_one)

start_step-stop :
    (e : Event) (p : Place) (x : RunnerService) (m : Moved)
    → start_step e p x ≡ some m
    → (m.service.stop ≡ x.stop)
      × (is_unreturned p ≡ is_unreturned m.service.place + bit m.is_done)
      × (x.stop ≡ false → m.is_done ≡ false)
unfolding start_step goes_to update_health bit is_unreturned
start_step-stop scheduled created x m h = ground arith
start_step-stop scheduled running x m h = ground arith
start_step-stop scheduled returned x m h = ground arith
start_step-stop scheduled (selecting fired) x m h = ground arith
start_step-stop (run_completes status now) created x m h = ground arith
start_step-stop (run_completes status now) running x m h = ground arith
start_step-stop (run_completes status now) returned x m h = ground arith
start_step-stop (run_completes status now) (selecting fired) x m h = ground arith
start_step-stop timer_fires created x m h = ground arith
start_step-stop timer_fires running x m h = ground arith
start_step-stop timer_fires returned x m h = ground arith
start_step-stop timer_fires (selecting true) x m h = ground arith
start_step-stop timer_fires (selecting false) x m h = ground arith
start_step-stop takes_timer created x m h = ground arith
start_step-stop takes_timer running x m h = ground arith
start_step-stop takes_timer returned x m h = ground arith
start_step-stop takes_timer (selecting true) x m h = ground arith
start_step-stop takes_timer (selecting false) x m h = ground arith
start_step-stop takes_stop created x m h = ground arith
start_step-stop takes_stop running x m h = ground arith
start_step-stop takes_stop returned x m h = ground arith
start_step-stop takes_stop (selecting fired) x m h = ground arith

-- What a list of services becomes, of what its head or its tail becomes.
pub replace_head-some :
    (xs : List Service) (o : Option Moved) (t : Turned)
    → replace_head xs o ≡ some t
    → (m : Moved) × (o ≡ some m)
      × (t ≡ record { services = runner_service m.service ∷ xs; is_done = m.is_done })
unfolding replace_head
replace_head-some xs none t h = ground arith
replace_head-some xs (some m) t h = (m, refl, ground arith)

pub keep_head-some :
    (s : Service) (o : Option Turned) (t : Turned)
    → keep_head s o ≡ some t
    → (u : Turned) × (o ≡ some u) × (t ≡ record { services = s ∷ u.services; is_done = u.is_done })
unfolding keep_head
keep_head-some s none t h = ground arith
keep_head-some s (some u) t h = (u, refl, ground arith)

pub turn-IsStopped :
    (e : Event) (i : ℕ) (xs : List Service) (t : Turned)
    → turn e i xs ≡ some t
    → All IsStopped xs
    → All IsStopped t.services × (unfinished xs ≡ unfinished t.services + bit t.is_done)
unfolding turn unfinished is_unfinished
turn-IsStopped e i [] t h hx = ground arith
turn-IsStopped e zero (empty_service ∷ xs) t h hx = ground arith
turn-IsStopped e zero (runner_service x ∷ xs) t h hx =
    let got = replace_head-some xs (start_step e x.place x) t h in
    let known = start_step-stop e x.place x got.0 got.1 in
    rw got.2 ((cc, hx.1), omega (arith, known.1))
turn-IsStopped e (suc i) (s ∷ xs) t h hx =
    let got = keep_head-some s (turn e i xs) t h in
    let rest = turn-IsStopped e i xs got.0 got.1 hx.1 in
    rw got.2 ((hx.0, rest.0), omega (arith, rest.1))

pub turn-IsOpen :
    (e : Event) (i : ℕ) (xs : List Service) (t : Turned)
    → turn e i xs ≡ some t
    → All IsOpen xs
    → All IsOpen t.services × (length t.services ≡ length xs) × (t.is_done ≡ false)
unfolding turn
turn-IsOpen e i [] t h hx = ground arith
turn-IsOpen e zero (empty_service ∷ xs) t h hx = ground arith
turn-IsOpen e zero (runner_service x ∷ xs) t h hx =
    let got = replace_head-some xs (start_step e x.place x) t h in
    let known = start_step-stop e x.place x got.0 got.1 in
    let calm = known.2 hx.0.0 in
    rw got.2 (((cc, one_of got.0.is_done known.1 calm hx.0.1), hx.1), refl, calm)
turn-IsOpen e (suc i) (s ∷ xs) t h hx =
    let got = keep_head-some s (turn e i xs) t h in
    let rest = turn-IsOpen e i xs got.0 got.1 hx.1 in
    rw got.2 ((hx.0, rest.0), ap suc rest.1, rest.2)
