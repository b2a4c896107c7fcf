-- ===== src/Confirmations/Open.antt =====
-- The status updates of cosmos/util/signer.go and eth/util/signer.go, at an open document.
use wpokt_validator.Base.{ℤ, ◌≡◌, true, Option, none, some, arith}
use wpokt_validator.Base.Bytes.{Bytes}
use wpokt_validator.Models.{Status, Mint, InvalidMint, Burn, is_open}
use wpokt_validator.Confirmations.{
  update_status, set_mint, set_invalid_mint, set_burn, update_status_and_confirmations_for_mint,
  update_status_and_confirmations_for_invalid_mint, update_status_and_confirmations_for_burn,
}

update_status-open :
    (status : Status) (confirmations : Bytes) (required : ℤ) (own : Bytes) (current : ℤ)
    (s : Status) (c : Bytes)
    → is_open status ≡ true
    → update_status status confirmations required own current ≡ some (s, c)
    → is_open s ≡ true
unfolding update_status
update_status-open status confirmations required own current s c o h = ground arith

set_burn-open :
    (d d' : Burn) (o : Option (Status × Bytes))
    → ((s : Status) (c : Bytes) → o ≡ some (s, c) → is_open s ≡ true)
    → set_burn d o ≡ some d'
    → is_open d'.status ≡ true
unfolding set_burn
set_burn-open d d' none k h = ground arith
set_burn-open d d' (some (s, c)) k h = ground (arith, k s c)

pub update_for_burn-open :
    (required current : ℤ) (d d' : Burn)
    → is_open d.status ≡ true
    → update_status_and_confirmations_for_burn required d current ≡ some d'
    → is_open d'.status ≡ true
unfolding update_status_and_confirmations_for_burn
update_for_burn-open required current d d' o h =
    set_burn-open d d' _
      (λ s c. update_status-open d.status d.confirmations required d.block_number current s c o) h

set_invalid_mint-open :
    (d d' : InvalidMint) (o : Option (Status × Bytes))
    → ((s : Status) (c : Bytes) → o ≡ some (s, c) → is_open s ≡ true)
    → set_invalid_mint d o ≡ some d'
    → is_open d'.status ≡ true
unfolding set_invalid_mint
set_invalid_mint-open d d' none k h = ground arith
set_invalid_mint-open d d' (some (s, c)) k h = ground (arith, k s c)

pub update_for_invalid_mint-open :
    (required current : ℤ) (d d' : InvalidMint)
    → is_open d.status ≡ true
    → update_status_and_confirmations_for_invalid_mint required d current ≡ some d'
    → is_open d'.status ≡ true
unfolding update_status_and_confirmations_for_invalid_mint
update_for_invalid_mint-open required current d d' o h =
    set_invalid_mint-open d d' _
      (λ s c. update_status-open d.status d.confirmations required d.height current s c o) h

set_mint-open :
    (d d' : Mint) (o : Option (Status × Bytes))
    → ((s : Status) (c : Bytes) → o ≡ some (s, c) → is_open s ≡ true)
    → set_mint d o ≡ some d'
    → is_open d'.status ≡ true
unfolding set_mint
set_mint-open d d' none k h = ground arith
set_mint-open d d' (some (s, c)) k h = ground (arith, k s c)

pub update_for_mint-open :
    (required current : ℤ) (d d' : Mint)
    → is_open d.status ≡ true
    → update_status_and_confirmations_for_mint required d current ≡ some d'
    → is_open d'.status ≡ true
unfolding update_status_and_confirmations_for_mint
update_for_mint-open required current d d' o h =
    set_mint-open d d' _
      (λ s c. update_status-open d.status d.confirmations required d.height current s c o) h
