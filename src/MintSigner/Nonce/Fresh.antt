-- ===== src/MintSigner/Nonce/Fresh.antt =====
-- FindNonce of eth/signer.go, and the other nonces.
use wpokt_validator.Base.{
  ℤ, pos, ◌≡◌, refl, Bool, true, false, some, List, [], ◌∷◌, ◌+ℤ◌, ◌<ℤ◌, ◌≤ℤ◌, ltb_ℤ, All, arith,
  if◌then◌else◌,
}
use wpokt_validator.Base.Sort.{sort_by}
use wpokt_validator.Base.Sort.Order.{AtMost, AtLeast, IsSorted, of_sort_by-All, sort_by-IsSorted}
use wpokt_validator.Models.{Mint}
use wpokt_validator.External.{External}
use wpokt_validator.Effect.{get_user_nonce, find_mints}
use wpokt_validator.Effect.Run.{Environment, returned, run, runs, returned-inj}
use wpokt_validator.MintSigner.Nonce.{
  MintSignerRunner, pending_nonces, last, larger_nonce, next_nonce, other_pending,
}

-- The last of a sorted list is the largest.
last-largest :
    (n : ℤ) (ns : List ℤ)
    → All (AtLeast n) ns
    → IsSorted ns
    → All (AtMost (last n ns)) ns × (n ≤ℤ last n ns)
unfolding last
last-largest n [] h s = (tt, omega arith)
last-largest n (m ∷ ns) h s =
    let (below, top) = last-largest m ns s.0 s.1 in ((top, below), omega (arith, h.0, top))

weaken-AtMost : (a b : ℤ) (ns : List ℤ) → a ≤ℤ b → All (AtMost a) ns → All (AtMost b) ns
weaken-AtMost a b [] l h = tt
weaken-AtMost a b (n ∷ ns) l h = (omega (arith, h.0), weaken-AtMost a b ns l h.1)

larger_nonce-bounds :
    (current : ℤ) (ns : List ℤ)
    → IsSorted ns
    → (current ≤ℤ larger_nonce current ns) × All (AtMost (larger_nonce current ns)) ns
unfolding larger_nonce
larger_nonce-bounds current [] s = (omega arith, tt)
larger_nonce-bounds current (n ∷ ns) s =
    let (below, top) = last-largest n ns s.0 s.1 in
    by_test (ltb_ℤ current (last n ns)) (λ t. ground arith) (λ t. ground arith) (top, below)
  where
    by_test :
        (t : Bool)
        → (t ≡ true → current ≤ℤ last n ns)
        → (t ≡ false → last n ns ≤ℤ current)
        → All (AtMost (last n ns)) (n ∷ ns)
        → (current ≤ℤ (if t then last n ns else current))
          × All (AtMost (if t then last n ns else current)) (n ∷ ns)
    by_test true l g h = (l refl, h)
    by_test false l g h = (omega arith, weaken-AtMost (last n ns) current (n ∷ ns) (g refl) h)

abbrev pub IsBelow : ℤ → ℤ → Type 0
IsBelow b n = n <ℤ b

All-IsBelow : (b : ℤ) (ns : List ℤ) → All (AtMost b) ns → All (IsBelow (b +ℤ pos 1)) ns
All-IsBelow b [] h = tt
All-IsBelow b (n ∷ ns) h = (ground (arith, h.0), All-IsBelow b ns h.1)

module _ (ext : External) (x : MintSignerRunner) (env : Environment) where
  -- The next nonce for a mint, if it is found, is above the nonce that the contract answers for
  -- the recipient, and above that of the data of every other mint to the recipient that the
  -- database finds to be pending, confirmed or signed.
  pub next_nonce-IsFresh :
      (mint : Mint) (current nonce : ℤ) (found : List Mint)
      → env (get_user_nonce (ext.hex_to_address mint.recipient_address)) ≡ some current
      → env (find_mints (other_pending ext x mint)) ≡ some found
      → run env (next_nonce ext x mint) ≡ returned nonce
      → (current <ℤ nonce) × All (IsBelow nonce) (pending_nonces found)
  unfolding next_nonce
  next_nonce-IsFresh mint current nonce found hc hf h =
      let h' : returned (larger_nonce current (sort_by ltb_ℤ (pending_nonces found)) +ℤ pos 1)
          ≡ returned nonce =
        simp (runs, hc, hf) at h in
      let e : larger_nonce current (sort_by ltb_ℤ (pending_nonces found)) +ℤ pos 1 ≡ nonce =
        returned-inj h' in
      let (above, tops) =
        larger_nonce-bounds current (sort_by ltb_ℤ (pending_nonces found))
          (sort_by-IsSorted (pending_nonces found)) in
      rw (← e) (
        ground (arith, above),
        of_sort_by-All (IsBelow _) ltb_ℤ (pending_nonces found) (All-IsBelow _ _ tops),
      )
