-- ===== src/Confirmations/Depth.antt =====
-- The status updates of cosmos/util/signer.go and eth/util/signer.go, at a pending document.
use wpokt_validator.Base.{
  ℤ, pos, ◌≡◌, ◌↔◌, inl, inr, Option, none, some, arith, ◌-ℤ◌, ◌≤ℤ◌, int64, ap, sym, Bool-cases,
  eqb_ℤ, Option-cases,
}
use wpokt_validator.Base.Bytes.{Bytes}
use wpokt_validator.Base.Decimal.{parse_int}
use wpokt_validator.Models.{Status, pending, confirmed, Burn}
use wpokt_validator.Confirmations.{
  update_status, set_burn, update_status_and_confirmations_for_burn,
}

-- No confirmations are required, or the int64 difference of the two block numbers reaches them.
pub data IsDeep (required : ℤ) (own : Bytes) (current : ℤ) : Type 0 where
  unrequired : required ≡ pos 0 → IsDeep required own current
  reached :
      (block : ℤ)
      → parse_int own ≡ some block
      → required ≤ℤ int64 (current -ℤ block)
      → IsDeep required own current

module _ (required : ℤ) (confirmations own : Bytes) (current : ℤ) (s : Status) (c : Bytes) where
  IsDeep-of_confirmed :
      update_status pending confirmations required own current ≡ some (s, c)
      → s ≡ confirmed
      → IsDeep required own current
  unfolding update_status
  IsDeep-of_confirmed h e = elim (Bool-cases (eqb_ℤ required (pos 0))) [
    | inl z ↦ unrequired (ground arith)
    | inr z ↦ elim (Option-cases (parse_int own)) [
      | inl p ↦ absurd (ground arith)
      | inr (b, p) ↦ reached b p (ground arith)
    ]
  ]

  confirmed_of_deep :
      update_status pending confirmations required own current ≡ some (s, c)
      → IsDeep required own current
      → s ≡ confirmed
  unfolding update_status
  confirmed_of_deep h (unrequired z) = ground arith
  confirmed_of_deep h (reached b p l) = ground arith

  status_iff :
      update_status pending confirmations required own current ≡ some (s, c)
      → (s ≡ confirmed) ↔ IsDeep required own current
  status_iff h = (IsDeep-of_confirmed h, confirmed_of_deep h)

burn_iff :
    (required current : ℤ) (m m' : Burn) (o : Option (Status × Bytes))
    → o ≡ update_status pending m.confirmations required m.block_number current
    → set_burn m o ≡ some m'
    → (m'.status ≡ confirmed) ↔ IsDeep required m.block_number current
unfolding set_burn
burn_iff required current m m' none e h = ground arith
burn_iff required current m m' (some (s, c)) e h =
    let k : s ≡ m'.status = ground arith in
    rw (← k) (status_iff required m.confirmations m.block_number current s c (sym e))

-- A pending burn becomes confirmed by an update that does not fail exactly when no confirmations
-- are required or its block lies deep enough.
pub burn-confirmed_iff :
    (required current : ℤ) (m m' : Burn)
    → m.status ≡ pending
    → update_status_and_confirmations_for_burn required m current ≡ some m'
    → (m'.status ≡ confirmed) ↔ IsDeep required m.block_number current
unfolding update_status_and_confirmations_for_burn
burn-confirmed_iff required current m m' p h =
    burn_iff required current m m' _
      (ap (λ t. update_status t m.confirmations required m.block_number current) p) h
