-- ===== src/Base/Sort/Order.antt =====
-- Sorting, and the elements and the order of its result.
use wpokt_validator.Base.Tests.{if◌then◌else◌}
use wpokt_validator.Base.Lists.{All, length}
use wpokt_validator.Base.Integers.{ℤ, ◌≤ℤ◌, ltb_ℤ}
use wpokt_validator.Base.Sort.{insert_by, sort_by}
use Prim.Native.Nat.{suc}
use mathlib.Core.Path.{◌≡◌, refl, ◌∙◌, ap}
use mathlib.Core.Bool.{Bool, true, false}
use mathlib.Core.List.{List, [], ◌∷◌, Permᴰ}
use mathlib.Core.List.Permᴰ
use native.Mathlib.Omega.{arith}

module _ {ℓ κ} {A : Type ℓ} (P : A → Type κ) (less : A → A → Bool) where
  if-All : (b : Bool) (xs ys : List A) → All P xs → All P ys → All P (if b then xs else ys)
  if-All true xs ys h k = h
  if-All false xs ys h k = k

  insert_by-All : (a : A) (bs : List A) → P a → All P bs → All P (insert_by less a bs)
  unfolding insert_by
  insert_by-All a [] p h = (p, tt)
  insert_by-All a (b ∷ bs) p h =
      if-All (less b a) _ _ (h.0, insert_by-All a bs p h.1) (p, (h.0, h.1))

  pub sort_by-All : (as_ : List A) → All P as_ → All P (sort_by less as_)
  unfolding sort_by
  sort_by-All [] h = tt
  sort_by-All (a ∷ as_) h = insert_by-All a (sort_by less as_) h.0 (sort_by-All as_ h.1)

  of_insert_by-All : (a : A) (bs : List A) → All P (insert_by less a bs) → P a × All P bs
  unfolding insert_by
  of_insert_by-All a [] h = h
  of_insert_by-All a (b ∷ bs) h = by_test (less b a) (of_insert_by-All a bs) h
    where
      by_test :
          (t : Bool)
          → (All P (insert_by less a bs) → P a × All P bs)
          → All P (if t then b ∷ insert_by less a bs else a ∷ b ∷ bs)
          → P a × (P b × All P bs)
      by_test true k h = let (p, rest) = k h.1 in (p, (h.0, rest))
      by_test false k h = h

  -- What holds of the sorted list holds of the list.
  pub of_sort_by-All : (as_ : List A) → All P (sort_by less as_) → All P as_
  unfolding sort_by
  of_sort_by-All [] h = tt
  of_sort_by-All (a ∷ as_) h =
      let (p, rest) = of_insert_by-All a (sort_by less as_) h in (p, of_sort_by-All as_ rest)

abbrev pub AtMost : ℤ → ℤ → Type 0
AtMost b a = a ≤ℤ b

abbrev pub AtLeast : ℤ → ℤ → Type 0
AtLeast b a = b ≤ℤ a

abbrev pub IsSorted : List ℤ → Type 0
IsSorted [] = Unit
IsSorted (n ∷ ns) = All (AtLeast n) ns × IsSorted ns

weaken-All : (a b : ℤ) (ns : List ℤ) → b ≤ℤ a → All (AtLeast a) ns → All (AtLeast b) ns
weaken-All a b [] l h = tt
weaken-All a b (n ∷ ns) l h = (omega (arith, h.0), weaken-All a b ns l h.1)

insert_by-IsSorted : (n : ℤ) (ns : List ℤ) → IsSorted ns → IsSorted (insert_by ltb_ℤ n ns)
unfolding insert_by
insert_by-IsSorted n [] h = (tt, tt)
insert_by-IsSorted n (m ∷ ns) h =
    by_test (ltb_ℤ m n) (insert_by-IsSorted n ns h.1) (λ t. ground arith) (λ t. ground arith)
  where
    by_test :
        (t : Bool)
        → IsSorted (insert_by ltb_ℤ n ns)
        → (t ≡ true → m ≤ℤ n)
        → (t ≡ false → n ≤ℤ m)
        → IsSorted (if t then m ∷ insert_by ltb_ℤ n ns else n ∷ m ∷ ns)
    by_test true k l g = (insert_by-All (AtLeast m) ltb_ℤ n ns (l refl) h.0, k)
    by_test false k l g = ((g refl, weaken-All m n ns (g refl) h.0), h)

pub sort_by-IsSorted : (ns : List ℤ) → IsSorted (sort_by ltb_ℤ ns)
unfolding sort_by
sort_by-IsSorted [] = tt
sort_by-IsSorted (n ∷ ns) = insert_by-IsSorted n (sort_by ltb_ℤ ns) (sort_by-IsSorted ns)

-- Sorting by a test that is a total order.
module _ {ℓ} {A : Type ℓ} (less : A → A → Bool) where
  -- No element is less than an earlier one.
  abbrev pub IsAscending : List A → Type 0
  IsAscending [] = Unit
  IsAscending (a ∷ as_) = All (λ b. less b a ≡ false) as_ × IsAscending as_

  length-insert_by : (a : A) (bs : List A) → length (insert_by less a bs) ≡ suc (length bs)
  unfolding insert_by
  length-insert_by a [] = refl
  length-insert_by a (b ∷ bs) = by_test (less b a) (length-insert_by a bs)
    where
      by_test :
          (t : Bool)
          → length (insert_by less a bs) ≡ suc (length bs)
          → length (if t then b ∷ insert_by less a bs else a ∷ b ∷ bs) ≡ suc (suc (length bs))
      by_test true e = ap suc e
      by_test false e = refl

  pub length-sort_by : (as_ : List A) → length (sort_by less as_) ≡ length as_
  unfolding sort_by
  length-sort_by [] = refl
  length-sort_by (a ∷ as_) = length-insert_by a (sort_by less as_) ∙ ap suc (length-sort_by as_)

  module _ (asymmetric : (a b : A) → less a b ≡ true → less b a ≡ false)
      (transitive : (a b c : A) → less b a ≡ false → less c b ≡ false → less c a ≡ false) where
    above_later :
        (a b : A) (cs : List A)
        → less b a ≡ false
        → All (λ c. less c b ≡ false) cs
        → All (λ c. less c a ≡ false) cs
    above_later a b [] h k = tt
    above_later a b (c ∷ cs) h k = (transitive a b c h k.0, above_later a b cs h k.1)

    insert_by-IsAscending :
        (a : A) (bs : List A) → IsAscending bs → IsAscending (insert_by less a bs)
    unfolding insert_by
    insert_by-IsAscending a [] h = (tt, tt)
    insert_by-IsAscending a (b ∷ bs) h = by_test (less b a) refl (insert_by-IsAscending a bs h.1)
      where
        by_test :
            (t : Bool)
            → less b a ≡ t
            → IsAscending (insert_by less a bs)
            → IsAscending (if t then b ∷ insert_by less a bs else a ∷ b ∷ bs)
        by_test true e k =
            (insert_by-All (λ c. less c b ≡ false) less a bs (asymmetric b a e) h.0, k)
        by_test false e k = ((e, above_later a b bs e h.0), h)

    pub sort_by-IsAscending : (as_ : List A) → IsAscending (sort_by less as_)
    unfolding sort_by
    sort_by-IsAscending [] = tt
    sort_by-IsAscending (a ∷ as_) =
        insert_by-IsAscending a (sort_by less as_) (sort_by-IsAscending as_)

-- Sorting keeps every element, as often as it was there.
module _ {ℓ} {A : Type ℓ} (less : A → A → Bool) where
  insert_by-Perm : (a : A) (bs : List A) → Permᴰ (insert_by less a bs) (a ∷ bs)
  unfolding insert_by
  insert_by-Perm a [] = Permᴰ.refl (a ∷ [])
  insert_by-Perm a (b ∷ bs) = by_test (less b a) (insert_by-Perm a bs)
    where
      by_test :
          (t : Bool)
          → Permᴰ (insert_by less a bs) (a ∷ bs)
          → Permᴰ (if t then b ∷ insert_by less a bs else a ∷ b ∷ bs) (a ∷ b ∷ bs)
      by_test true rest = Permᴰ.trans (Permᴰ.cons refl rest) (Permᴰ.swap refl refl)
      by_test false rest = Permᴰ.refl (a ∷ b ∷ bs)

  pub sort_by-Perm : (as_ : List A) → Permᴰ (sort_by less as_) as_
  unfolding sort_by
  sort_by-Perm [] = Permᴰ.refl []
  sort_by-Perm (a ∷ as_) =
      Permᴰ.trans (insert_by-Perm a (sort_by less as_)) (Permᴰ.cons refl (sort_by-Perm as_))
