-- ===== src/Runner/Safety.antt =====
-- The wait group of main.go and the services that it waits for.
use Prim.Native.Nat.{zero, suc}
use wpokt_validator.Base.{
  ℕ, ◌+◌, ◌==◌, Bool, true, false, Option, none, some, List, [], ◌∷◌, length, All, ◌≡◌, refl, arith,
  ap, Bool-cases, inl, inr, ==→eq, ◌≢◌, ◌∙◌,
}
use wpokt_validator.Runner.{Service, runner_service, empty_service, Event, created}
use wpokt_validator.Runner.Turns.{
  IsStopped, IsOpen, unfinished, is_unfinished, is_unreturned, bit, turn-IsStopped, turn-IsOpen,
}
use wpokt_validator.Runner.System.{
  Main, serving, stopping, waiting, ended, crashed, System, Action, at_stopped, at_others, signal,
  stop_next, wait_all, wait_returns, Turned, turn, step, live_step, main_step, is_alive, settle_wg,
  wg_done, after_stopped, after_others, after_stop, stop, Stopped, start_all,
}

abbrev pub IsPhase : Main → List Service → ℕ → Type 0
IsPhase serving others wg = Unit
IsPhase stopping others wg = Unit
IsPhase waiting others wg = others ≡ []
IsPhase ended others wg = (others ≡ []) × (wg ≡ 0)
IsPhase crashed others wg = ⊥

abbrev pub IsTracked : System → Type 0
IsTracked s =
    All IsStopped s.stopped
    × All IsOpen s.others
    × (s.wg ≡ unfinished s.stopped + length s.others)
    × IsPhase s.main s.others s.wg

-- A service that the program has built, and not started.
abbrev pub IsNew : Service → Type 0
IsNew (runner_service x) = (x.stop ≡ false) × (x.place ≡ created)
IsNew empty_service = Unit

pub data Reach (services : List Service) : System → Type 0 where
  begin : Reach services (start_all services)
  later : {s t : System} (a : Action) → Reach services s → step a s ≡ some t → Reach services t

wg_done-counts : (b : Bool) (n w : ℕ) → w ≡ n + bit b → wg_done b w ≡ some n
unfolding wg_done bit
wg_done-counts true n zero h = ground arith
wg_done-counts true n (suc w) h = ap some (omega (arith, h))
wg_done-counts false n w h = ap some (omega (arith, h))

bit-false : (n : ℕ) → n ≡ n + bit false
unfolding bit
bit-false n = omega arith

settle_wg-counts :
    (s : System) (b : Bool) (n : ℕ)
    → s.wg ≡ n + bit b
    → settle_wg s (wg_done b s.wg) ≡ record s { wg = n }
unfolding settle_wg
settle_wg-counts s b n h = rw (wg_done-counts b n s.wg h) refl

[]-of_length : (xs ys : List Service) → length ys ≡ length xs → xs ≡ [] → ys ≡ []
[]-of_length [] [] h e = refl
[]-of_length [] (y ∷ ys) h e = ground arith
[]-of_length (x ∷ xs) ys h e = ground arith

IsPhase-kept :
    (m : Main) (xs ys : List Service) (v w : ℕ)
    → is_alive m ≡ true
    → length ys ≡ length xs
    → IsPhase m xs v
    → IsPhase m ys w
unfolding is_alive
IsPhase-kept serving xs ys v w l h p = tt
IsPhase-kept stopping xs ys v w l h p = tt
IsPhase-kept waiting xs ys v w l h p = []-of_length xs ys h p
IsPhase-kept ended xs ys v w l h p = ground arith
IsPhase-kept crashed xs ys v w l h p = ground arith

after_stopped-some :
    (s t : System) (o : Option Turned)
    → after_stopped s o ≡ some t
    → (u : Turned) × (o ≡ some u)
      × (t ≡ settle_wg (record s { stopped = u.services }) (wg_done u.is_done s.wg))
unfolding after_stopped
after_stopped-some s t none k = ground arith
after_stopped-some s t (some u) k = (u, refl, ground arith)

pub after_others-some :
    (s t : System) (o : Option Turned)
    → after_others s o ≡ some t
    → (u : Turned) × (o ≡ some u)
      × (t ≡ settle_wg (record s { others = u.services }) (wg_done u.is_done s.wg))
unfolding after_others
after_others-some s t none k = ground arith
after_others-some s t (some u) k = (u, refl, ground arith)

-- An event of a stopped service does not bring the wait group below zero.
pub after_stopped-counted :
    (s t : System) (e : Event) (i : ℕ)
    → IsTracked s
    → after_stopped s (turn e i s.stopped) ≡ some t
    → (u : Turned) × (turn e i s.stopped ≡ some u)
      × (t ≡ record s { stopped = u.services; wg = unfinished u.services + length s.others })
after_stopped-counted s t e i h k =
    let got = after_stopped-some s t (turn e i s.stopped) k in
    let u = got.0 in
    let known = turn-IsStopped e i s.stopped u got.1 h.0 in
    let counted =
      settle_wg-counts (record s { stopped = u.services }) u.is_done
        (unfinished u.services + length s.others) (omega (arith, h.2, known.1)) in
    (u, got.1, got.2 ∙ counted)

after_stopped-IsTracked :
    (s t : System) (e : Event) (i : ℕ)
    → IsTracked s
    → is_alive s.main ≡ true
    → after_stopped s (turn e i s.stopped) ≡ some t
    → IsTracked t
after_stopped-IsTracked s t e i h l k =
    let got = after_stopped-counted s t e i h k in
    let known = turn-IsStopped e i s.stopped got.0 got.1 h.0 in
    let n = unfinished got.0.services + length s.others in
    rw got.2 (known.0, h.1, refl, IsPhase-kept s.main s.others s.others s.wg n l refl h.3)

after_others-IsTracked :
    (s t : System) (e : Event) (i : ℕ)
    → IsTracked s
    → is_alive s.main ≡ true
    → after_others s (turn e i s.others) ≡ some t
    → IsTracked t
after_others-IsTracked s t e i h l k =
    let got = after_others-some s t (turn e i s.others) k in
    let u = got.0 in
    let known = turn-IsOpen e i s.others u got.1 h.1 in
    let counted =
      settle_wg-counts (record s { others = u.services }) u.is_done s.wg
        (rw known.2 (bit-false s.wg)) in
    let phase = IsPhase-kept s.main s.others u.services s.wg s.wg l known.1 h.3 in
    rw got.2 (rw counted (h.0, known.0, rw known.1 h.2, phase))

stop-IsStopped :
    (x : Service)
    → IsOpen x
    → (u : Stopped) × (stop x ≡ some u)
      × IsStopped u.service
      × (1 ≡ is_unfinished u.service + bit u.is_done)
unfolding stop is_unfinished bit
stop-IsStopped (runner_service x) h = rw h.0 (_, refl, refl, omega (arith, h.1))
stop-IsStopped empty_service h = (_, refl, tt, refl)

after_stop-IsTracked :
    (s : System) (x : Service) (xs : List Service)
    → IsTracked s
    → s.main ≡ stopping
    → s.others ≡ x ∷ xs
    → IsTracked (after_stop s xs (stop x))
unfolding after_stop unfinished
after_stop-IsTracked s x xs h m o =
    let opens = rw o at h.1 in
    let known = stop-IsStopped x opens.0 in
    let u = known.0 in
    let n = unfinished (u.service ∷ s.stopped) + length xs in
    let counted =
      settle_wg-counts (record s { stopped = u.service ∷ s.stopped; others = xs }) u.is_done n
        (omega (arith, h.2, ap length o, known.3)) in
    rw known.1 (rw counted ((known.2, h.0), opens.1, refl, rw m tt))

pub signal-some :
    (m : Main) (xs : List Service) (s t : System)
    → main_step signal m xs s ≡ some t
    → (m ≡ serving) × (t ≡ record s { main = stopping })
unfolding main_step
signal-some serving xs s t h = (refl, ground arith)
signal-some stopping xs s t h = ground arith
signal-some waiting xs s t h = ground arith
signal-some ended xs s t h = ground arith
signal-some crashed xs s t h = ground arith

pub stop_next-some :
    (m : Main) (xs : List Service) (s t : System)
    → main_step stop_next m xs s ≡ some t
    → (m ≡ stopping)
      × (y : Service) × (ys : List Service) × (xs ≡ y ∷ ys)
      × (t ≡ after_stop s ys (stop y))
unfolding main_step
stop_next-some serving xs s t h = ground arith
stop_next-some stopping [] s t h = ground arith
stop_next-some stopping (y ∷ ys) s t h = (refl, y, ys, refl, ground arith)
stop_next-some waiting xs s t h = ground arith
stop_next-some ended xs s t h = ground arith
stop_next-some crashed xs s t h = ground arith

pub wait_all-some :
    (m : Main) (xs : List Service) (s t : System)
    → main_step wait_all m xs s ≡ some t
    → (m ≡ stopping) × (xs ≡ []) × (t ≡ record s { main = waiting })
unfolding main_step
wait_all-some serving xs s t h = ground arith
wait_all-some stopping [] s t h = (refl, refl, ground arith)
wait_all-some stopping (y ∷ ys) s t h = ground arith
wait_all-some waiting xs s t h = ground arith
wait_all-some ended xs s t h = ground arith
wait_all-some crashed xs s t h = ground arith

pub wait_returns-some :
    (m : Main) (xs : List Service) (s t : System)
    → main_step wait_returns m xs s ≡ some t
    → (m ≡ waiting) × (s.wg ≡ 0) × (t ≡ record s { main = ended })
unfolding main_step
wait_returns-some serving xs s t h = ground arith
wait_returns-some stopping xs s t h = ground arith
wait_returns-some waiting xs s t h = elim (Bool-cases (s.wg == 0)) [
  | inl l ↦ (refl, ==→eq s.wg 0 l, ground (arith, l, h))
  | inr l ↦ ground (arith, l, h)
]
wait_returns-some ended xs s t h = ground arith
wait_returns-some crashed xs s t h = ground arith

live_step-IsTracked :
    (a : Action) (s t : System)
    → IsTracked s
    → is_alive s.main ≡ true
    → live_step a s ≡ some t
    → IsTracked t
unfolding live_step
live_step-IsTracked (at_stopped i e) s t h l k = after_stopped-IsTracked s t e i h l k
live_step-IsTracked (at_others i e) s t h l k = after_others-IsTracked s t e i h l k
live_step-IsTracked signal s t h l k = rw (signal-some s.main s.others s t k).1 (h.0, h.1, h.2, tt)
live_step-IsTracked stop_next s t h l k =
    let got = stop_next-some s.main s.others s t k in
    rw got.4 (after_stop-IsTracked s got.1 got.2 h got.0 got.3)
live_step-IsTracked wait_all s t h l k =
    let got = wait_all-some s.main s.others s t k in rw got.2 (h.0, h.1, h.2, got.1)
live_step-IsTracked wait_returns s t h l k =
    let got = wait_returns-some s.main s.others s t k in
    let phase = rw got.0 at h.3 in rw got.2 (h.0, h.1, h.2, (phase, got.1))

pub step-IsTracked : (a : Action) (s t : System) → IsTracked s → step a s ≡ some t → IsTracked t
unfolding step
step-IsTracked a s t h k = elim (Bool-cases (is_alive s.main)) [
  | inl l ↦ live_step-IsTracked a s t h l (rw l at k)
  | inr l ↦ ground (arith, k, l)
]

IsNew-IsOpen : (x : Service) → IsNew x → IsOpen x
unfolding is_unreturned
IsNew-IsOpen (runner_service x) h = (h.0, rw h.1 refl)
IsNew-IsOpen empty_service h = tt

start_all-IsTracked :
    (services : List Service) → All IsNew services → IsTracked (start_all services)
unfolding unfinished
start_all-IsTracked services h = (tt, opens services h, omega arith, tt)
  where
    opens : (xs : List Service) → All IsNew xs → All IsOpen xs
    opens [] h = tt
    opens (x ∷ xs) h = (IsNew-IsOpen x h.0, opens xs h.1)

pub Reach-IsTracked :
    (services : List Service) (s : System) → All IsNew services → Reach services s → IsTracked s
Reach-IsTracked services s new begin = start_all-IsTracked services new
Reach-IsTracked services s new (later a r k) =
    step-IsTracked a _ s (Reach-IsTracked services _ new r) k

abbrev pub IsFinished : Service → Type 0
IsFinished x = is_unfinished x ≡ 0

unfinished-zero : (xs : List Service) → unfinished xs ≡ 0 → All IsFinished xs
unfolding unfinished
unfinished-zero [] h = tt
unfinished-zero (x ∷ xs) h = (omega (arith, h), unfinished-zero xs (omega (arith, h)))

-- From the start of new services on, in whatever order the goroutines go on: the process does not
-- panic, neither at a wait group below zero nor at a channel closed twice; the wait group counts
-- the stopped services that have not returned, and those that are yet to be stopped; and where
-- `wg.Wait` has returned, `Stop` was called on every service, and every one has returned.
pub wait_group-counts :
    (services : List Service) (s : System)
    → All IsNew services
    → Reach services s
    → (s.main ≢ crashed)
      × (s.wg ≡ unfinished s.stopped + length s.others)
      × (s.main ≡ ended → (s.others ≡ []) × All IsFinished s.stopped)
wait_group-counts services s new r =
    let h = Reach-IsTracked services s new r in (λ c. rw c at h.3, h.2, λ e. at_end h e)
  where
    at_end : IsTracked s → s.main ≡ ended → (s.others ≡ []) × All IsFinished s.stopped
    at_end h e =
        let phase = rw e at h.3 in
        (phase.0, unfinished-zero s.stopped (omega (arith, h.2, phase.1)))
