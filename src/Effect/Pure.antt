-- ===== src/Effect/Pure.antt =====
-- Programs that return at once: the returns of their parts.
use wpokt_validator.Base.{Bool, true, false, Option, none, some, ◌≡◌, refl, arith}
use wpokt_validator.Effect.{Program, ret, fail, panic, call, ◌>>=◌, lift, require}

pub bind-ret :
    {A B : Type 0} (m : Program A) (f : A → Program B) {b : B}
    → (m >>= f) ≡ ret b
    → (a : A) × (m ≡ ret a) × (f a ≡ ret b)
unfolding ◌>>=◌
bind-ret (ret a) f h = (a, refl, h)
bind-ret fail f h = ground arith
bind-ret panic f h = ground arith
bind-ret (call r k) f h = ground arith

pub lift-ret : {A : Type 0} (o : Option A) {a : A} → lift o ≡ ret a → o ≡ some a
unfolding lift
lift-ret none h = ground arith
lift-ret (some a) h = ground arith

pub require-ret : (b : Bool) (t : Unit {0}) → require b ≡ ret t → b ≡ true
unfolding require
require-ret true t h = refl
require-ret false t h = ground arith

pub ret-inj : {A : Type 0} {a b : A} → ret a ≡ ret b → a ≡ b
ret-inj h = ground arith
