-- ===== src/Examples/Texts.antt =====
-- The readers of texts and events, and the confirmations, in the small world.
use wpokt_validator.Base.{
  ℕ, ℤ, pos, ◌≡◌, ◌↔◌, refl, Bool, true, false, Option, none, some, List, [], ◌∷◌, length,
  if◌then◌else◌,
}
use wpokt_validator.Base.Bytes.{bytes, eqb, equal_fold, to_lower, has_0x, trim_0x}
use wpokt_validator.Base.Decimal.{parse_int, format_int, set_string}
use wpokt_validator.Models.{Burn, MintMemo, pending, confirmed}
use wpokt_validator.Common.{is_valid_ethereum_address, bytes_from_hex, ensure_0x_prefix}
use wpokt_validator.Confirmations.{
  update_status_and_confirmations_for_mint, update_status_and_confirmations_for_invalid_mint,
  update_status_and_confirmations_for_burn,
}
use wpokt_validator.Confirmations.Depth.{IsDeep, burn-confirmed_iff}
use wpokt_validator.Confirmations.Polling.{settled, update_for_burn-again}
use wpokt_validator.Events.{TransferEvent, parse_transfer_events}
use wpokt_validator.Events.Selection.{Selects, parse_transfer_events_iff}
use wpokt_validator.Memo.{validate_memo}
use wpokt_validator.Memo.Shape.{IsPayable, validate_memo-IsPayable}
use wpokt_validator.ValidateTx.{ValidateTxResult, validate_tx_to_cosmos_multisig}
use wpokt_validator.ValidateTx.Verdict.{Verdict, validate_tx-Verdict}
use wpokt_validator.Examples.{ext, cfg, payee, payment, burn}

burn-confirmed_iff_example : (pending ≡ confirmed) ↔ IsDeep (pos 2) (bytes "2") (pos 3)
unfolding update_status_and_confirmations_for_burn parse_int set_string format_int
    wpokt_validator.Confirmations.update_status wpokt_validator.Base.int64
burn-confirmed_iff_example =
    burn-confirmed_iff (pos 2) (pos 3) burn (record burn { confirmations = bytes "1" }) refl refl

abbrev looked : Burn
looked = record burn { confirmations = bytes "1" }

update_for_burn-again_example : update_status_and_confirmations_for_burn (pos 2) looked (pos 6) ≡ (
    if settled looked.status looked.confirmations
    then some looked
    else update_status_and_confirmations_for_burn (pos 2) burn (pos 6))
unfolding update_status_and_confirmations_for_burn parse_int set_string format_int
    wpokt_validator.Confirmations.update_status wpokt_validator.Base.int64
update_for_burn-again_example = update_for_burn-again (pos 2) burn looked (pos 3) (pos 6) refl refl

abbrev transfer : TransferEvent
transfer = record {
  sender = bytes "pokt1sender";
  receiver = bytes "pokt1vault0000000000";
  amount = record { denom = bytes "upokt"; amount = pos 5000 };
}

parse_transfer_events_iff_example :
    (parse_transfer_events ext (bytes "pokt1vault0000000000") (bytes "upokt") payment.events
      ≡ some (transfer ∷ []))
    ↔ Selects ext (bytes "pokt1vault0000000000") (bytes "upokt") payment.events (transfer ∷ [])
parse_transfer_events_iff_example =
    parse_transfer_events_iff ext (bytes "pokt1vault0000000000") (bytes "upokt") payment.events
      (transfer ∷ [])

abbrev memo : MintMemo
memo = record { address = payee; chain_id = bytes "1" }

validate_memo-IsPayable_example : IsPayable (bytes "1") memo
unfolding validate_memo is_valid_ethereum_address bytes_from_hex to_lower trim_0x has_0x eqb
    equal_fold wpokt_validator.Memo.trim
validate_memo-IsPayable_example = validate_memo-IsPayable ext (bytes "1") memo (bytes "{}") refl

abbrev judged : ValidateTxResult
judged = record {
  tx_valid = true;
  tx = some (record { body_memo = some (bytes "memo") });
  tx_hash = bytes "0xff";
  memo = memo;
  amount = some (record { denom = bytes "upokt"; amount = pos 5000 });
  sender_address = bytes "pokt1sender";
  needs_refund = false;
}

validate_tx-Verdict_example : Verdict ext cfg (pos 10) (pos 9000) payment judged
unfolding validate_tx_to_cosmos_multisig parse_transfer_events validate_memo
    is_valid_ethereum_address bytes_from_hex to_lower trim_0x has_0x eqb equal_fold ensure_0x_prefix
    wpokt_validator.Events.read_event wpokt_validator.Events.find_attribute_value
    wpokt_validator.Memo.trim
validate_tx-Verdict_example = validate_tx-Verdict ext cfg (pos 10) (pos 9000) payment judged refl
