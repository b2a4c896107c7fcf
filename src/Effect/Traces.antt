-- ===== src/Effect/Traces.antt =====
-- The requests and the value of a run, and those of a program.
use wpokt_validator.Base.{All, ◌≡◌, refl}
use wpokt_validator.Effect.{Request, Program, ret, fail, panic, call, ◌>>=◌}
use wpokt_validator.Effect.Run.{Environment, Outcome, returned, failed, panicked, run, trace}
use wpokt_validator.Effect.Ensures.{Ensures, Issues, Always, Matching}

-- The documents that the database finds match the search.
pub record IsMatching (env : Environment) : Type 0 where
  pub matching : (r : Request) → Matching r (env r)

Always-trace :
    {A : Type 0} (P : Request → Type 0) (Q : A → Type 0) (env : Environment) (m : Program A)
    → IsMatching env
    → Always P Q m
    → All P (trace env m)
unfolding trace
Always-trace P Q env (ret a) h k = tt
Always-trace P Q env fail h k = tt
Always-trace P Q env panic h k = tt
Always-trace P Q env (call r f) h k =
    (k.0, Always-trace P Q env (f (env r)) h (k.1 (env r) (h.matching r)))

pub Issues-trace :
    {A : Type 0} {P : Request → Type 0} (env : Environment) (m : Program A)
    → IsMatching env
    → Issues P m
    → All P (trace env m)
Issues-trace env m h k = Always-trace _ _ env m h k.always

-- What holds of an outcome if it is a value.
abbrev Settles : {A : Type 0} → (A → Type 0) → Outcome A → Type 0
Settles Q (returned a) = Q a
Settles Q failed = Unit
Settles Q panicked = Unit

Always-Settles :
    {A : Type 0} (P : Request → Type 0) (Q : A → Type 0) (env : Environment) (m : Program A)
    → IsMatching env
    → Always P Q m
    → Settles Q (run env m)
unfolding run
Always-Settles P Q env (ret a) h k = k
Always-Settles P Q env fail h k = tt
Always-Settles P Q env panic h k = tt
Always-Settles P Q env (call r f) h k =
    Always-Settles P Q env (f (env r)) h (k.1 (env r) (h.matching r))

pub Ensures-returned :
    {A : Type 0} {P : Request → Type 0} {Q : A → Type 0} (env : Environment) (m : Program A) (a : A)
    → IsMatching env
    → Ensures P Q m
    → run env m ≡ returned a
    → Q a
Ensures-returned {Q = Q} env m a h k e = rw e at (Always-Settles _ Q env m h k.always)

-- What a program asks for, and then what goes on from its value.
pub trace-bind :
    {A B : Type 0} (P : Request → Type 0) (env : Environment) (m : Program A) (f : A → Program B)
    → All P (trace env m)
    → ((a : A) → run env m ≡ returned a → All P (trace env (f a)))
    → All P (trace env (m >>= f))
unfolding trace run ◌>>=◌
trace-bind P env (ret a) f h k = k a refl
trace-bind P env fail f h k = tt
trace-bind P env panic f h k = tt
trace-bind P env (call r g) f h k = (h.0, trace-bind P env (g (env r)) f h.1 k)
