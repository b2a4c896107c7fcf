-- ===== src/Effect/Run.antt =====
-- Running a program in an environment that has one answer to each request.
use wpokt_validator.Base.{Bool, true, false, Option, none, arith, some, List, [], ◌∷◌, ◌≡◌, refl}
use wpokt_validator.Effect.{
  Request, Answer, Program, ret, fail, panic, call, ask, lift, defer, ◌>>=◌, require,
}

abbrev pub Environment : Type 0
Environment = (r : Request) → Answer r

pub data Outcome (A : Type 0) : Type 0 where
  returned : A → Outcome A
  failed : Outcome A
  panicked : Outcome A

unfoldable pub run : {A : Type 0} → Environment → Program A → Outcome A
run env (ret a) = returned a
run env fail = failed
run env panic = panicked
run env (call r k) = run env (k (env r))

-- The requests made, in order.
unfoldable pub trace : {A : Type 0} → Environment → Program A → List Request
trace env (ret a) = []
trace env fail = []
trace env panic = []
trace env (call r k) = r ∷ trace env (k (env r))

abbrev pub continue : {A B : Type 0} → Outcome A → (A → Outcome B) → Outcome B
continue (returned a) f = f a
continue failed f = failed
continue panicked f = panicked

pub run-bind :
    {A B : Type 0} (env : Environment) (m : Program A) (f : A → Program B)
    → run env (m >>= f) ≡ continue (run env m) (λ a. run env (f a))
unfolding run ◌>>=◌
run-bind env (ret a) f = refl
run-bind env fail f = refl
run-bind env panic f = refl
run-bind env (call r k) f = run-bind env (k (env r)) f

pub run-ask : (env : Environment) (r : Request) → run env (ask r) ≡ returned (env r)
unfolding run ask
run-ask env r = refl

pub run-ret : {A : Type 0} (env : Environment) (a : A) → run env (ret a) ≡ returned a
unfolding run
run-ret env a = refl

pub returned-inj : {A : Type 0} {a b : A} → returned a ≡ returned b → a ≡ b
returned-inj h = ground arith

pub run-lift-some : {A : Type 0} (env : Environment) (a : A) → run env (lift (some a)) ≡ returned a
unfolding run lift
run-lift-some env a = refl

-- A deferred request does not change the outcome.
pub run-defer :
    {A : Type 0} (env : Environment) (d : Request) (m : Program A) → run env (defer d m) ≡ run env m
unfolding run defer
run-defer env d (ret a) = refl
run-defer env d fail = refl
run-defer env d panic = refl
run-defer env d (call r k) = run-defer env d (k (env r))

-- A value that a check or an answer lets through.
pub require-returned :
    (env : Environment) (b : Bool) (t : Unit {0}) → run env (require b) ≡ returned t → b ≡ true
unfolding require run
require-returned env true t h = refl
require-returned env false t h = ground arith

pub lift-returned :
    {A : Type 0} (env : Environment) (o : Option A) {a : A}
    → run env (lift o) ≡ returned a
    → o ≡ some a
unfolding lift run
lift-returned env none h = ground arith
lift-returned env (some a) h = ground arith

-- The outcome of a bind that returns is that of its parts.
pub run-bind-returned :
    {A B : Type 0} (env : Environment) (m : Program A) (f : A → Program B) {b : B}
    → run env (m >>= f) ≡ returned b
    → (a : A) × (run env m ≡ returned a) × (run env (f a) ≡ returned b)
run-bind-returned {A} {B} env m f {b} h = go (run env m) refl (rw (run-bind env m f) at h)
  where
    go :
        (o : Outcome A)
        → run env m ≡ o
        → continue o (λ a. run env (f a)) ≡ returned b
        → (a : A) × (run env m ≡ returned a) × (run env (f a) ≡ returned b)
    go (returned a) e k = (a, e, k)
    go failed e k = cc
    go panicked e k = cc

pub ruleset runs = (run-bind, run-ask, run-ret, run-lift-some)
