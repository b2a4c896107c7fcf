-- ===== src/Client/Paging.antt =====
-- The loop over pages of cosmos/client/client.go, of a node that pages through a list.
use Prim.Native.Nat.{zero, suc}
use native.Mathlib.Nat.{mul-le-mul_right}
use wpokt_validator.Base.{
  ℕ, pos, ◌+◌, ◌*◌, ◌^◌, ◌≤◌, ◌<◌, true, false, List, [], ◌∷◌, ◌++◌, length, take, drop, leb_ℤ, ◌≡◌,
  ◌⊎◌, inl, inr, refl, arith, take-slice, take-of_length, take-all, int64-eq_self, ◌==◌, ◌||◌, leb,
  ◌∙◌, sym, ap,
}
use wpokt_validator.Models.Chain.{TxResponse}
use wpokt_validator.Effect.{Program, ret, ◌>>=◌}
use wpokt_validator.Client.Stubs.{Page}
use wpokt_validator.Client.{
  get_pages, is_last_page, max_page_depth, CosmosClient, get_txs_by_events,
  get_txs_by_events_per_page, Bytes,
}

-- The node answers with the pages of one list, of a limit each, and with its length; beyond the
-- last page it may answer anything.
abbrev pub IsPaging : (ℕ → Program Page) → List TxResponse → ℕ → Type 0
IsPaging fetch all_txs limit =
    (k : ℕ)
    → (k ≡ 0) ⊎ (k * limit < length all_txs)
    → fetch (k + 1)
      ≡ ret (record { txs = take limit (drop (k * limit) all_txs); total = length all_txs })

-- What the loop decides at a page, in numbers.
tests-cases :
    (a b t p : ℕ)
    → let last = a == 0 || leb_ℤ (pos t) (pos b) || leb 500 p in
      ((last ≡ true) × ((a ≡ 0) ⊎ ((t ≤ b) ⊎ (500 ≤ p)))) ⊎ ((last ≡ false) × (b < t) × (p < 500))
tests-cases a b t p = ground arith

last_page-cases :
    (page : ℕ) (xs txs : List TxResponse) (total : ℕ)
    → total < 2 ^ 63
    → ((is_last_page page xs txs total ≡ true)
        × ((length xs ≡ 0) ⊎ ((total ≤ length txs) ⊎ (500 ≤ page))))
      ⊎ ((is_last_page page xs txs total ≡ false) × (length txs < total) × (page < 500))
unfolding is_last_page
last_page-cases page xs txs total small =
    rw (int64-eq_self (pos total) (small, omega arith))
      (tests-cases (length xs) (length txs) total page)

-- A page that is empty is beyond the end.
length-drop-zero :
    (n m : ℕ) (xs : List TxResponse) → length (take (suc m) (drop n xs)) ≡ 0 → length xs ≤ n
length-drop-zero zero m [] h = omega arith
length-drop-zero zero m (x ∷ xs) h = ground arith
length-drop-zero (suc n) m [] h = omega arith
length-drop-zero (suc n) m (x ∷ xs) h = omega (arith, length-drop-zero n m xs h)

take-same : (n m : ℕ) (xs : List TxResponse) → length xs ≤ n → n ≤ m → take n xs ≡ take m xs
take-same n m xs h e = take-of_length n xs h ∙ sym (take-of_length m xs (omega (arith, h, e)))

take-lt : (n : ℕ) (xs : List TxResponse) → length (take n xs) < length xs → n < length xs
take-lt zero [] h = ground arith
take-lt zero (x ∷ xs) h = omega arith
take-lt (suc n) [] h = ground arith
take-lt (suc n) (x ∷ xs) h = omega (arith, take-lt n xs (omega (arith, h)))

times_500 : (k l : ℕ) → k + 1 ≤ 500 → k * l + l ≤ 500 * l
times_500 k l h = omega (arith, mul-le-mul_right l h)

next_position : (k l : ℕ) → k * l + l ≡ (k + 1) * l
next_position k l = omega arith

too_far : (k : ℕ) → k + suc zero ≡ 500 → k + 1 < 500 → ⊥
too_far k e h = ground arith

module _ (fetch : ℕ → Program Page) (all_txs : List TxResponse) (limit : ℕ) where
  -- What has been gathered when the loop stops is all that it can gather.
  stopped-take :
      (k : ℕ)
      → k + 1 ≤ 500
      → (length (take (suc limit) (drop (k * suc limit) all_txs)) ≡ 0)
        ⊎ ((length all_txs ≤ length (take (k * suc limit + suc limit) all_txs)) ⊎ (500 ≤ k + 1))
      → take (k * suc limit + suc limit) all_txs ≡ take (500 * suc limit) all_txs
  stopped-take k h (inl e) =
      let whole = length-drop-zero (k * suc limit) limit all_txs e in
      take-same (k * suc limit + suc limit) (500 * suc limit) all_txs (omega (arith, whole))
        (times_500 k (suc limit) h)
  stopped-take k h (inr (inl e)) =
      take-same (k * suc limit + suc limit) (500 * suc limit) all_txs
        (take-all (k * suc limit + suc limit) all_txs e) (times_500 k (suc limit) h)
  stopped-take k h (inr (inr e)) =
      let last : k ≡ 499 = omega (arith, h, e) in rw last (ap (λ n. take n all_txs) (omega arith))

  -- What the loop does with a page and what is gathered then.
  abbrev next : ℕ → ℕ → List TxResponse → List TxResponse → Program (List TxResponse)
  next fuel k xs txs = elim (is_last_page (k + 1) xs txs (length all_txs)) [
    | true ↦ ret txs
    | false ↦ get_pages fetch fuel (k + 1 + 1) txs
  ]

  get_pages-step :
      (fuel k : ℕ)
      → IsPaging fetch all_txs (suc limit)
      → (k ≡ 0) ⊎ (k * suc limit < length all_txs)
      → get_pages fetch (suc fuel) (k + 1) (take (k * suc limit) all_txs)
        ≡ next fuel k
            (take (suc limit) (drop (k * suc limit) all_txs))
            (take (k * suc limit + suc limit) all_txs)
  unfolding get_pages ◌>>=◌
  get_pages-step fuel k paging open_ =
      let slice = take (suc limit) (drop (k * suc limit) all_txs) in
      let asked : get_pages fetch (suc fuel) (k + 1) (take (k * suc limit) all_txs)
          ≡ next fuel k slice (take (k * suc limit) all_txs ++ slice) =
        rw (paging k open_) refl in
      asked ∙ ap (next fuel k slice) (take-slice (k * suc limit) (suc limit) all_txs)

  next-stops :
      (fuel k : ℕ) (xs txs : List TxResponse)
      → is_last_page (k + 1) xs txs (length all_txs) ≡ true
      → next fuel k xs txs ≡ ret txs
  next-stops fuel k xs txs t = rw (next, t) refl

  next-goes_on :
      (fuel k : ℕ) (xs txs : List TxResponse)
      → is_last_page (k + 1) xs txs (length all_txs) ≡ false
      → next fuel k xs txs ≡ get_pages fetch fuel (k + 1 + 1) txs
  next-goes_on fuel k xs txs t = rw (next, t) refl

  -- From a page on, with all before it gathered.
  get_pages-IsPaging :
      IsPaging fetch all_txs (suc limit)
      → length all_txs < 2 ^ 63
      → (fuel k : ℕ) → k + suc fuel ≡ 500
      → (k ≡ 0) ⊎ (k * suc limit < length all_txs)
      → get_pages fetch (suc fuel) (k + 1) (take (k * suc limit) all_txs)
        ≡ ret (take (500 * suc limit) all_txs)
  get_pages-IsPaging paging small zero k e open_ =
      let xs = take (suc limit) (drop (k * suc limit) all_txs) in
      let txs = take (k * suc limit + suc limit) all_txs in
      elim (last_page-cases (k + 1) xs txs (length all_txs) small) [
        | inl stop ↦
            get_pages-step zero k paging open_
            ∙ next-stops zero k xs txs stop.0
            ∙ ap ret (stopped-take k (omega (arith, e)) stop.1)
        | inr more ↦ absurd (too_far k e more.2)
      ]
  get_pages-IsPaging paging small (suc fuel) k e open_ =
      let xs = take (suc limit) (drop (k * suc limit) all_txs) in
      let txs = take (k * suc limit + suc limit) all_txs in
      elim (last_page-cases (k + 1) xs txs (length all_txs) small) [
        | inl stop ↦
            get_pages-step (suc fuel) k paging open_
            ∙ next-stops (suc fuel) k xs txs stop.0
            ∙ ap ret (stopped-take k (omega (arith, e)) stop.1)
        | inr more ↦
            get_pages-step (suc fuel) k paging open_
            ∙ next-goes_on (suc fuel) k xs txs more.0
            ∙ ap (λ n. get_pages fetch (suc fuel) (k + 1 + 1) (take n all_txs))
                (next_position k (suc limit))
            ∙ get_pages-IsPaging paging small fuel (k + 1) (omega (arith, e))
                (inr (still_open k (take-lt (k * suc limit + suc limit) all_txs more.1)))
      ]
    where
      still_open :
          (k : ℕ)
          → k * suc limit + suc limit < length all_txs
          → (k + 1) * suc limit < length all_txs
      still_open k h = omega (arith, h)

-- Both ways to the chain end, and find everything up to their page limits. Where the node answers
-- the query with the pages of one list, each of the limit of a page, and with the list's length,
-- the result is the list itself, or its first five hundred pages where it is longer: the loop over
-- pages ends within its depth, and no transaction is lost or seen twice.
pub get_txs_by_events-IsComplete :
    (c : CosmosClient) (query : Bytes) (all_txs : List TxResponse) (limit : ℕ)
    → IsPaging (get_txs_by_events_per_page c query) all_txs (suc limit)
    → length all_txs < 2 ^ 63
    → get_txs_by_events c query ≡ ret (take (500 * suc limit) all_txs)
unfolding get_txs_by_events
get_txs_by_events-IsComplete c query all_txs limit paging small =
    ap (λ txs. get_pages (get_txs_by_events_per_page c query) max_page_depth 1 txs)
      (nothing all_txs)
    ∙ get_pages-IsPaging (get_txs_by_events_per_page c query) all_txs limit paging small 499 0 refl
        (inl refl)
  where
    nothing : (xs : List TxResponse) → [] ≡ take (0 * suc limit) xs
    nothing xs = let e : 0 ≡ 0 * suc limit = omega arith in ap (λ n. take n xs) e
