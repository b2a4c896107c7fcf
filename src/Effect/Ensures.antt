-- ===== src/Effect/Ensures.antt =====
-- What holds of every run of a program, whatever the answers, as long as a search answers with
-- documents that match: each request made satisfies `P`, and a value returned satisfies `Q`. One
-- rule for each way to build a program.
use wpokt_validator.Base.{
  ◌≡◌, refl, Bool, true, false, Option, none, some, if◌then◌else◌, List, All,
}
use wpokt_validator.Effect.{
  Request, Answer, Program, ret, fail, panic, call, ◌>>=◌, ask, lift, require, settle, defer,
  find_burns, find_mints, find_invalid_mints,
}

abbrev pub AllMatch : {D : Type 0} → (D → Bool) → Option (List D) → Type 0
AllMatch f none = Unit
AllMatch f (some docs) = All (λ d. f d ≡ true) docs

-- What MongoDB documents of a search: the documents found match its filter.
abbrev pub Matching : (r : Request) → Answer r → Type 0
Matching (find_burns f) a = AllMatch f a
Matching (find_mints f) a = AllMatch f a
Matching (find_invalid_mints f) a = AllMatch f a
Matching r a = Unit

abbrev pub Always : {A : Type 0} → (Request → Type 0) → (A → Type 0) → Program A → Type 0
Always P Q (ret a) = Q a
Always P Q fail = Unit
Always P Q panic = Unit
Always P Q (call r k) = P r × ((a : Answer r) → Matching r a → Always P Q (k a))

pub record Ensures {A : Type 0} (P : Request → Type 0) (Q : A → Type 0) (m : Program A)
    : Type 0 where
  pub always : Always P Q m

-- The value returned is not of interest.
abbrev pub Issues : {A : Type 0} → (Request → Type 0) → Program A → Type 0
Issues P m = Ensures P (λ _. Unit {0}) m

module _ (P : Request → Type 0) where
  Always-bind :
      {A B : Type 0} (Q : A → Type 0) (R : B → Type 0) (m : Program A) (f : A → Program B)
      → Always P Q m
      → ((a : A) → Q a → Always P R (f a))
      → Always P R (m >>= f)
  unfolding ◌>>=◌
  Always-bind Q R (ret a) f h k = k a h
  Always-bind Q R fail f h k = tt
  Always-bind Q R panic f h k = tt
  Always-bind Q R (call r g) f h k = (h.0, λ a t. Always-bind Q R (g a) f (h.1 a t) k)

  Always-settle :
      (m : Program Bool) → Always P (λ _. Unit {0}) m → Always P (λ _. Unit {0}) (settle m)
  unfolding settle
  Always-settle (ret b) h = tt
  Always-settle fail h = tt
  Always-settle panic h = tt
  Always-settle (call r k) h = (h.0, λ a t. Always-settle (k a) (h.1 a t))

  Always-defer :
      {A : Type 0} (Q : A → Type 0) (d : Request) (m : Program A)
      → P d
      → Always P Q m
      → Always P Q (defer d m)
  unfolding defer
  Always-defer Q d (ret a) p h = (p, λ _ _. h)
  Always-defer Q d fail p h = (p, λ _ _. tt)
  Always-defer Q d panic p h = (p, λ _ _. tt)
  Always-defer Q d (call r k) p h = (h.0, λ a t. Always-defer Q d (k a) p (h.1 a t))

  Always-weaken :
      {A : Type 0} (Q : A → Type 0) (m : Program A) → Always P Q m → Always P (λ _. Unit {0}) m
  Always-weaken Q (ret a) h = tt
  Always-weaken Q fail h = tt
  Always-weaken Q panic h = tt
  Always-weaken Q (call r k) h = (h.0, λ a t. Always-weaken Q (k a) (h.1 a t))

Always-mono :
    {P P' : Request → Type 0} {A : Type 0} (Q : A → Type 0) (m : Program A)
    → ((r : Request) → P r → P' r)
    → Always P Q m
    → Always P' Q m
Always-mono Q (ret a) f h = h
Always-mono Q fail f h = tt
Always-mono Q panic f h = tt
Always-mono Q (call r k) f h = (f r h.0, λ a t. Always-mono Q (k a) f (h.1 a t))

-- What the requests satisfy may be weakened.
pub Ensures-mono :
    {P P' : Request → Type 0} {A : Type 0} {Q : A → Type 0} (m : Program A)
    → ((r : Request) → P r → P' r)
    → Ensures P Q m
    → Ensures P' Q m
Ensures-mono m f h = record { always = Always-mono _ m f h.always }

module _ {P : Request → Type 0} where
  pub Ensures-ret : {A : Type 0} {Q : A → Type 0} (a : A) → Q a → Ensures P Q (ret a)
  Ensures-ret a h = record { always = h }

  pub Ensures-fail : {A : Type 0} {Q : A → Type 0} → Ensures P Q fail
  Ensures-fail = record { always = tt }

  pub Ensures-panic : {A : Type 0} {Q : A → Type 0} → Ensures P Q panic
  Ensures-panic = record { always = tt }

  pub Ensures-ask : (r : Request) → P r → Issues P (ask r)
  unfolding ask
  Ensures-ask r p = record { always = (p, λ a t. tt) }

  pub Ensures-ask-Matching : (r : Request) → P r → Ensures P (Matching r) (ask r)
  unfolding ask
  Ensures-ask-Matching r p = record { always = (p, λ a t. t) }

  pub Ensures-lift : {A : Type 0} (o : Option A) → Issues P (lift o)
  unfolding lift
  Ensures-lift none = record { always = tt }
  Ensures-lift (some a) = record { always = tt }

  pub Ensures-lift_eq : {A : Type 0} (o : Option A) → Ensures P (λ a. o ≡ some a) (lift o)
  unfolding lift
  Ensures-lift_eq none = record { always = tt }
  Ensures-lift_eq (some a) = record { always = refl }

  pub Ensures-require : (b : Bool) → Ensures P (λ _. b ≡ true) (require b)
  unfolding require
  Ensures-require true = record { always = refl }
  Ensures-require false = record { always = tt }

  pub Ensures-bind :
      {A B : Type 0} {Q : A → Type 0} {R : B → Type 0} (m : Program A) (f : A → Program B)
      → Ensures P Q m
      → ((a : A) → Q a → Ensures P R (f a))
      → Ensures P R (m >>= f)
  Ensures-bind m f h k = record { always = Always-bind P _ _ m f h.always (λ a q. (k a q).always) }

  pub Issues-bind :
      {A B : Type 0} {R : B → Type 0} (m : Program A) (f : A → Program B)
      → Issues P m
      → ((a : A) → Ensures P R (f a))
      → Ensures P R (m >>= f)
  Issues-bind m f h k = Ensures-bind m f h (λ a _. k a)

  pub Ensures-if :
      {A : Type 0} {Q : A → Type 0} (b : Bool) (m n : Program A)
      → (b ≡ true → Ensures P Q m)
      → (b ≡ false → Ensures P Q n)
      → Ensures P Q (if b then m else n)
  Ensures-if true m n hm hn = hm refl
  Ensures-if false m n hm hn = hn refl

  pub Issues-settle : (m : Program Bool) → Issues P m → Issues P (settle m)
  Issues-settle m h = record { always = Always-settle P m h.always }

  pub Ensures-defer :
      {A : Type 0} {Q : A → Type 0} (d : Request) (m : Program A)
      → P d
      → Ensures P Q m
      → Ensures P Q (defer d m)
  Ensures-defer d m p h = record { always = Always-defer P _ d m p h.always }

  pub Ensures-weaken : {A : Type 0} {Q : A → Type 0} (m : Program A) → Ensures P Q m → Issues P m
  Ensures-weaken m h = record { always = Always-weaken P _ m h.always }
