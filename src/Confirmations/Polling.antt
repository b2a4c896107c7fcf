-- ===== src/Confirmations/Polling.antt =====
-- UpdateStatusAndConfirmationsForBurn of cosmos/util/signer.go, asked again at a later block.
use wpokt_validator.Base.{
  ℤ, pos, ◌≡◌, refl, Bool, true, false, ◌&&◌, Option, none, some, arith, ◌-ℤ◌, ltb_ℤ, eqb_ℤ,
  Bool-cases, ◌≢◌, inl, inr, Option-cases, int64, IsInt64, if◌then◌else◌, ap,
}
use wpokt_validator.Base.Bytes.{Bytes}
use wpokt_validator.Base.Decimal.{parse_int}
use wpokt_validator.Base.Decimal.RoundTrip.{parse_int-format_int, parse_int-IsInt64}
use wpokt_validator.Models.{Status, pending, Burn, is_confirmed}
use wpokt_validator.Confirmations.{
  count, update_status, update_status_and_confirmations_for_burn, set_burn,
}

int64-IsInt64 : (z : ℤ) → IsInt64 (int64 z)
unfolding int64
int64-IsInt64 z = ground arith

count-IsInt64 : (o : Option ℤ) → ((z : ℤ) → o ≡ some z → IsInt64 z) → IsInt64 (count o)
unfolding count
count-IsInt64 none h = omega arith
count-IsInt64 (some z) h = let k : IsInt64 z = h z refl in ground arith

pub settled : Status → Bytes → Bool
settled s c = is_confirmed s && ltb_ℤ (pos 0) (count (parse_int c))

-- The count that is stored is read back, so nothing is lost between two looks.
module _ (required : ℤ) (confirmations own : Bytes) (first second : ℤ) (s : Status)
    (c : Bytes) where
  again_zero :
      eqb_ℤ required (pos 0) ≡ true
      → update_status pending confirmations required own first ≡ some (s, c)
      → update_status s c required own second
        ≡ update_status pending confirmations required own second
  unfolding update_status count
  again_zero z h =
      let n : ℤ = count (parse_int confirmations) in
      let k : IsInt64 n = count-IsInt64 _ (parse_int-IsInt64 confirmations) in
      ground (arith, parse_int-format_int n k)

  again_some :
      (o : ℤ)
      → parse_int own ≡ some o
      → eqb_ℤ required (pos 0) ≡ false
      → update_status pending confirmations required own first ≡ some (s, c)
      → update_status s c required own second ≡ (
          if settled s c
          then some (s, c)
          else update_status pending confirmations required own second)
  unfolding update_status settled count
  again_some o e z h =
      let n : ℤ = int64 (first -ℤ o) in
      ground (arith, parse_int-format_int n (int64-IsInt64 (first -ℤ o)))

  again_none :
      parse_int own ≡ none
      → eqb_ℤ required (pos 0) ≡ false
      → update_status pending confirmations required own first ≢ some (s, c)
  unfolding update_status
  again_none e z h = ground arith

  same_zero :
      eqb_ℤ required (pos 0) ≡ true
      → update_status pending confirmations required own first
        ≡ update_status pending confirmations required own second
  unfolding update_status
  same_zero z = ground arith

  again :
      update_status pending confirmations required own first ≡ some (s, c)
      → update_status s c required own second ≡ (
          if settled s c
          then some (s, c)
          else update_status pending confirmations required own second)
  again h = elim (Bool-cases (eqb_ℤ required (pos 0))) [
    | inl z ↦ ground (arith, again_zero z h, same_zero z)
    | inr z ↦ elim (Option-cases (parse_int own)) [
      | inl e ↦ absurd (again_none e z h)
      | inr (o, e) ↦ again_some o e z h
    ]
  ]

set_burn-eq-some :
    (d looked : Burn) (o : Option (Status × Bytes))
    → set_burn d o ≡ some looked
    → (s : Status) × (c : Bytes) × (o ≡ some (s, c))
      × (looked ≡ record d { status = s; confirmations = c })
unfolding set_burn
set_burn-eq-some d looked none h = ground arith
set_burn-eq-some d looked (some (s, c)) h = (s, c, refl, ground arith)

burn_again :
    (required : ℤ) (d : Burn) (first second : ℤ) (s : Status) (c : Bytes)
    → d.status ≡ pending
    → update_status d.status d.confirmations required d.block_number first ≡ some (s, c)
    → set_burn
        (record d { status = s; confirmations = c })
        (update_status s c required d.block_number second)
      ≡ (if settled s c
          then some (record d { status = s; confirmations = c })
          else set_burn d (update_status d.status d.confirmations required d.block_number second))
unfolding set_burn
burn_again required d first second s c p h =
    let h' : update_status pending d.confirmations required d.block_number first ≡ some (s, c) =
      rw p at h in
    rw (again required d.confirmations d.block_number first second s c h')
      (ground (arith, ap (λ t. update_status t d.confirmations required d.block_number second) p))

-- Once a pending burn has been looked at, a second look at a later block leaves it alone if it was
-- confirmed with a positive count, and else finds what it would have found the first time.
pub update_for_burn-again :
    (required : ℤ) (burn looked : Burn) (first second : ℤ)
    → burn.status ≡ pending
    → update_status_and_confirmations_for_burn required burn first ≡ some looked
    → update_status_and_confirmations_for_burn required looked second ≡ (
        if settled looked.status looked.confirmations
        then some looked
        else update_status_and_confirmations_for_burn required burn second)
unfolding update_status_and_confirmations_for_burn
update_for_burn-again required burn looked first second p h =
    let (s, c, e, l) = set_burn-eq-some burn looked _ h in
    rw l (burn_again required burn first second s c p e)
