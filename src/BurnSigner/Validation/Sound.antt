-- ===== src/BurnSigner/Validation/Sound.antt =====
-- ValidateBurn of cosmos/signer.go, and the log of a burn.
use wpokt_validator.Base.{
  ℤ, ◌≡◌, refl, true, Option, none, some, List, arith, ◌<ℤ◌, eq_of_parts, to_word64, ◌∙◌, ap, sym,
}
use wpokt_validator.Base.Bytes.{eqb, equal_fold}
use wpokt_validator.Base.Decimal.{parse_int}
use wpokt_validator.Models.{Burn}
use wpokt_validator.Models.Config.{Config}
use wpokt_validator.Models.Chain.{Log, BurnEvent}
use wpokt_validator.External.{External}
use wpokt_validator.Effect.{get_transaction_receipt}
use wpokt_validator.Effect.Run.{
  Environment, returned, run, run-ask, run-ret, run-bind-returned, returned-inj, lift-returned,
}
use wpokt_validator.BurnSigner.Validation.{
  BurnSignerRunner, find_log, recipient_bytes, matches_event, matches_parsed, matches_log,
  matches_logs, validate_burn,
}

module _ (ext : External) (cfg : Config) (x : BurnSignerRunner) where
  -- The log of the burn's index is an event with the burn's amount, sender and recipient, and the
  -- amount is above the minimum.
  pub record IsLogged (burn : Burn) (logs : List Log) (index : ℤ) (log : Log) (event : BurnEvent)
      : Type 0 where
    pub indexed : parse_int burn.log_index ≡ some index
    pub found : find_log (to_word64 index) logs ≡ some log
    pub parsed : ext.parse_burn_and_bridge log ≡ some event
    pub same_amount : ext.new_int_from_string burn.amount ≡ some event.amount
    pub enough : x.minimum_amount <ℤ event.amount
    pub same_sender : equal_fold (ext.address_hex event.from_address) burn.sender_address ≡ true
    pub same_recipient : eqb event.pokt_address (recipient_bytes ext cfg x burn) ≡ true

  matches_parsed-IsLogged :
      (burn : Burn) (logs : List Log) (index : ℤ) (log : Log) (n : Option ℤ) (o : Option BurnEvent)
      → parse_int burn.log_index ≡ some index
      → find_log (to_word64 index) logs ≡ some log
      → ext.new_int_from_string burn.amount ≡ n
      → ext.parse_burn_and_bridge log ≡ o
      → matches_parsed ext cfg x burn n o ≡ true
      → (event : BurnEvent) × IsLogged burn logs index log event
  unfolding matches_parsed matches_event
  matches_parsed-IsLogged burn logs index log n none a b c d h = ground arith
  matches_parsed-IsLogged burn logs index log none (some e) a b c d h = ground arith
  matches_parsed-IsLogged burn logs index log (some n) (some e) a b c d h =
      let same : e.amount ≡ n = eq_of_parts e.amount n (ground arith) in
      (
        e,
        record {
          indexed = a;
          found = b;
          parsed = d;
          same_amount = c ∙ ap some (sym same);
          enough = ground arith;
          same_sender = ground arith;
          same_recipient = ground arith;
        },
      )

  matches_log-IsLogged :
      (burn : Burn) (logs : List Log) (index : ℤ) (o : Option Log)
      → parse_int burn.log_index ≡ some index
      → find_log (to_word64 index) logs ≡ o
      → matches_log ext cfg x burn o ≡ true
      → (log : Log) × (event : BurnEvent) × IsLogged burn logs index log event
  unfolding matches_log
  matches_log-IsLogged burn logs index none a b h = ground arith
  matches_log-IsLogged burn logs index (some log) a b h =
      let (event, logged) = matches_parsed-IsLogged burn logs index log _ _ a b refl refl h in
      (log, event, logged)

  matches_logs-IsLogged :
      (burn : Burn) (logs : List Log) (o : Option ℤ)
      → parse_int burn.log_index ≡ o
      → matches_logs ext cfg x burn o logs ≡ true
      → (index : ℤ) × (log : Log) × (event : BurnEvent) × IsLogged burn logs index log event
  unfolding matches_logs
  matches_logs-IsLogged burn logs none a h = ground arith
  matches_logs-IsLogged burn logs (some index) a h =
      let (log, event, logged) = matches_log-IsLogged burn logs index _ a refl h in
      (index, log, event, logged)

  -- A burn that passes its validation has a receipt with a log of its index, which is a burn event
  -- of the burn's amount, which is above the minimum, of its sender and of its recipient.
  pub validate_burn-IsLogged :
      (env : Environment) (burn : Burn)
      → run env (validate_burn ext cfg x burn) ≡ returned true
      → (logs : List Log) × (index : ℤ) × (log : Log) × (event : BurnEvent) × (env
            (get_transaction_receipt burn.transaction_hash)
          ≡ some logs)
        × IsLogged burn logs index log event
  unfolding validate_burn
  validate_burn-IsLogged env burn h =
      let (receipt, asked, h₁) = run-bind-returned env _ _ h in
      let (logs, ok, h₂) = run-bind-returned env _ _ h₁ in
      let (index, log, event, logged) =
        matches_logs-IsLogged burn logs _ refl (returned-inj (rw run-ret at h₂)) in
      (logs, index, log, event, returned-inj (rw run-ask at asked) ∙ lift-returned env _ ok, logged)
