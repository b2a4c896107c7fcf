-- ===== src/Confirmations.antt =====
-- cosmos/util/signer.go and `UpdateStatusAndConfirmationsForMint` of eth/util/signer.go: how many
-- blocks stand on a document's transaction, and whether they are enough.
pub mod Polling
pub mod Depth
pub mod Open
use wpokt_validator.Base.{
  ℕ, ℤ, pos, Bool, ◌||◌, Option, none, some, ◌-ℤ◌, leb_ℤ, ltb_ℤ, eqb_ℤ, int64, if◌then◌else◌,
}
use wpokt_validator.Base.Bytes.{Bytes}
use wpokt_validator.Base.Decimal.{parse_int, format_int}
use wpokt_validator.Models.{Status, pending, confirmed, Mint, InvalidMint, Burn, is_pending}

-- What is parsed of the stored count: an error or a negative number counts as 0.
unfoldable pub count : Option ℤ → ℤ
count none = pos 0
count (some c) = if ltb_ℤ c (pos 0) then pos 0 else c

unfoldable pub recount : ℤ → ℤ → Option ℤ → Option (Status × Bytes)
recount required current none = none
recount required current (some own) =
    let c = int64 (current -ℤ own) in
    some (if leb_ℤ required c then confirmed else pending, format_int c)

-- The body that the three functions share: the new status and the new count, or an error where
-- the block number of the document does not parse.
unfoldable pub update_status : Status → Bytes → ℤ → Bytes → ℤ → Option (Status × Bytes)
unfolding count recount
update_status status confirmations required own current =
    let c = count (parse_int confirmations) in
    if is_pending status || eqb_ℤ c (pos 0)
    then if eqb_ℤ required (pos 0)
      then some (confirmed, format_int c)
      else recount required current (parse_int own)
    else some (status, format_int c)

unfoldable pub set_mint : Mint → Option (Status × Bytes) → Option Mint
set_mint mint none = none
set_mint mint (some (s, c)) = some (record mint { status = s; confirmations = c })

unfoldable pub set_invalid_mint : InvalidMint → Option (Status × Bytes) → Option InvalidMint
set_invalid_mint doc none = none
set_invalid_mint doc (some (s, c)) = some (record doc { status = s; confirmations = c })

unfoldable pub set_burn : Burn → Option (Status × Bytes) → Option Burn
set_burn doc none = none
set_burn doc (some (s, c)) = some (record doc { status = s; confirmations = c })

module _ (required : ℤ) where
  unfoldable pub update_status_and_confirmations_for_mint : Mint → ℤ → Option Mint
  unfolding set_mint
  update_status_and_confirmations_for_mint mint height =
      set_mint mint (update_status mint.status mint.confirmations required mint.height height)

  unfoldable pub update_status_and_confirmations_for_invalid_mint :
      InvalidMint → ℤ → Option InvalidMint
  unfolding set_invalid_mint
  update_status_and_confirmations_for_invalid_mint doc height =
      set_invalid_mint doc (update_status doc.status doc.confirmations required doc.height height)

  unfoldable pub update_status_and_confirmations_for_burn : Burn → ℤ → Option Burn
  unfolding set_burn
  update_status_and_confirmations_for_burn doc block =
      set_burn doc (update_status doc.status doc.confirmations required doc.block_number block)
