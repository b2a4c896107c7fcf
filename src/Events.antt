-- ===== src/Events.antt =====
-- cosmos/util/events.go: the transfers that a transaction's events report.
pub mod Selection
use wpokt_validator.Base.{Bool, not, Option, none, some, List, [], ◌∷◌, if◌then◌else◌}
use wpokt_validator.Base.Bytes.{Bytes, bytes, eqb, equal_fold}
use wpokt_validator.Models.Chain.{Coin, Attribute, Event}
use wpokt_validator.External.{External}

pub record TransferEvent : Type 0 where
  pub sender : Bytes
  pub receiver : Bytes
  pub amount : Coin

unfoldable pub find_attribute_value : List Attribute → Bytes → Option Bytes
find_attribute_value [] key = none
find_attribute_value (event ∷ events) key =
    if equal_fold event.key key then some event.value else find_attribute_value events key

infixl 10 ◌>>=◌
abbrev ◌>>=◌ : {A B : Type 0} → Option A → (A → Option B) → Option B
none >>= f = none
some a >>= f = f a

module _ (ext : External) (recipient denom : Bytes) where
  -- One event: an error, no transfer of interest, or a transfer.
  unfoldable pub read_event : Event → Option (Option TransferEvent)
  read_event event =
      if equal_fold event.kind (bytes "transfer")
      then (do
        sender ← find_attribute_value event.attributes (bytes "sender")
        receiver ← find_attribute_value event.attributes (bytes "recipient")
        if not (equal_fold receiver recipient) then some none else do
          amount_str ← find_attribute_value event.attributes (bytes "amount")
          amount ← ext.parse_coin amount_str
          some (
              if eqb amount.denom denom
              then some (record { sender = sender; receiver = receiver; amount = amount })
              else none))
      else some none

  abbrev keep : Option TransferEvent → List TransferEvent → List TransferEvent
  keep none ts = ts
  keep (some t) ts = t ∷ ts

  -- The loop; an error returns at once.
  unfoldable pub parse_transfer_events : List Event → Option (List TransferEvent)
  parse_transfer_events [] = some []
  parse_transfer_events (event ∷ events) = do
    found ← read_event event
    rest ← parse_transfer_events events
    some (keep found rest)
