-- ===== src/Events/Selection.antt =====
-- The transfers that ParseTransferEvents of cosmos/util/events.go selects, as a relation.
use wpokt_validator.Base.{
  ◌≡◌, ◌↔◌, refl, true, false, Option, none, some, List, [], ◌∷◌, arith, Bool-cases, Option-cases,
  inl, inr, ◌⊎◌,
}
use wpokt_validator.Base.Bytes.{Bytes, bytes, eqb, equal_fold}
use wpokt_validator.Models.Chain.{Coin, Event}
use wpokt_validator.External.{External}
use wpokt_validator.Events.{TransferEvent, find_attribute_value, read_event, parse_transfer_events}

module _ (ext : External) (recipient denom : Bytes) where
  -- The attributes of a transfer event, as far as the code reads them.
  pub record Reports (e : Event) (sender receiver : Bytes) : Type 0 where
    pub kind : equal_fold e.kind (bytes "transfer") ≡ true
    pub sent : find_attribute_value e.attributes (bytes "sender") ≡ some sender
    pub received : find_attribute_value e.attributes (bytes "recipient") ≡ some receiver

  pub record ReportsCoin (e : Event) (coin : Coin) : Type 0 where
    pub text : Bytes
    pub found : find_attribute_value e.attributes (bytes "amount") ≡ some text
    pub parsed : ext.parse_coin text ≡ some coin

  -- An event that is passed over.
  pub data IsOther (e : Event) : Type 0 where
    other_kind : equal_fold e.kind (bytes "transfer") ≡ false → IsOther e
    elsewhere :
        (sender receiver : Bytes)
        → Reports e sender receiver
        → equal_fold receiver recipient ≡ false
        → IsOther e
    other_denom :
        (sender receiver : Bytes) (coin : Coin)
        → Reports e sender receiver
        → equal_fold receiver recipient ≡ true
        → ReportsCoin e coin
        → eqb coin.denom denom ≡ false
        → IsOther e

  pub record IsTransferOf (e : Event) (t : TransferEvent) : Type 0 where
    pub reports : Reports e t.sender t.receiver
    pub addressed : equal_fold t.receiver recipient ≡ true
    pub coin : ReportsCoin e t.amount
    pub denominated : eqb t.amount.denom denom ≡ true

  pub data Selects : List Event → List TransferEvent → Type 0 where
    nil : Selects [] []
    skip :
        {e : Event} {es : List Event} {ts : List TransferEvent}
        → IsOther e
        → Selects es ts
        → Selects (e ∷ es) ts
    take :
        {e : Event} {t : TransferEvent} {es : List Event} {ts : List TransferEvent}
        → IsTransferOf e t
        → Selects es ts
        → Selects (e ∷ es) (t ∷ ts)

  read_other : (e : Event) → IsOther e → read_event ext recipient denom e ≡ some none
  unfolding read_event
  read_other e (other_kind h) = ground arith
  read_other e (elsewhere s r h f) = ground arith
  read_other e (other_denom s r c h f k d) = ground arith

  read_transfer :
      (e : Event) (t : TransferEvent)
      → IsTransferOf e t
      → read_event ext recipient denom e ≡ some (some t)
  unfolding read_event
  read_transfer e t h = ground arith

  module _ (e : Event) (o : Option TransferEvent)
      (h : read_event ext recipient denom e ≡ some o) where
    Meaning : Type 0
    Meaning = (IsOther e × (o ≡ none)) ⊎ ((t : TransferEvent) × IsTransferOf e t × (o ≡ some t))

    coin_meaning :
        (s r : Bytes) (c : Coin)
        → Reports e s r
        → equal_fold r recipient ≡ true
        → ReportsCoin e c
        → Meaning
    unfolding read_event Meaning
    coin_meaning s r c k f m = elim (Bool-cases (eqb c.denom denom)) [
      | inl d ↦ inr (
        record { sender = s; receiver = r; amount = c },
        record { reports = k; addressed = f; coin = m; denominated = d },
        ground arith,
      )
      | inr d ↦ inl (other_denom s r c k f m d, ground arith)
    ]

    addressed_meaning : (s r : Bytes) → Reports e s r → equal_fold r recipient ≡ true → Meaning
    unfolding read_event
    addressed_meaning s r k f =
        elim (Option-cases (find_attribute_value e.attributes (bytes "amount"))) [
          | inl a ↦ absurd (ground arith)
          | inr (a, ha) ↦ elim (Option-cases (ext.parse_coin a)) [
            | inl p ↦ absurd (ground arith)
            | inr (c, p) ↦ coin_meaning s r c k f (record { text = a; found = ha; parsed = p })
          ]
        ]

    meaning : Meaning
    unfolding read_event Meaning
    meaning = elim (Bool-cases (equal_fold e.kind (bytes "transfer"))) [
      | inr k ↦ inl (other_kind k, ground arith)
      | inl k ↦ elim (Option-cases (find_attribute_value e.attributes (bytes "sender"))) [
        | inl s ↦ absurd (ground arith)
        | inr (s, hs) ↦
            elim (Option-cases (find_attribute_value e.attributes (bytes "recipient"))) [
              | inl r ↦ absurd (ground arith)
              | inr (r, hr) ↦
                  let rep : Reports e s r = record { kind = k; sent = hs; received = hr } in
                  elim (Bool-cases (equal_fold r recipient)) [
                    | inl f ↦ addressed_meaning s r rep f
                    | inr f ↦ inl (elsewhere s r rep f, ground arith)
                  ]
            ]
      ]
    ]

  Selects-of_parsed :
      (es : List Event) (ts : List TransferEvent)
      → parse_transfer_events ext recipient denom es ≡ some ts
      → Selects es ts
  unfolding parse_transfer_events Meaning
  Selects-of_parsed [] [] h = nil
  Selects-of_parsed [] (t ∷ ts) h = ground arith
  Selects-of_parsed (e ∷ es) ts h = elim (Option-cases (read_event ext recipient denom e)) [
    | inl n ↦ absurd (ground arith)
    | inr (o, he) ↦ elim (Option-cases (parse_transfer_events ext recipient denom es)) [
      | inl n ↦ absurd (ground arith)
      | inr (rest, hr) ↦
          let rec : Selects es rest = Selects-of_parsed es rest hr in
          elim (meaning e o he) [
            | inl (x, n) ↦ let q : ts ≡ rest = ground arith in rw q (skip x rec)
            | inr (t, x, n) ↦ let q : ts ≡ t ∷ rest = ground arith in rw q (take x rec)
          ]
    ]
  ]

  parsed_of_Selects :
      (es : List Event) (ts : List TransferEvent)
      → Selects es ts
      → parse_transfer_events ext recipient denom es ≡ some ts
  unfolding parse_transfer_events
  parsed_of_Selects es ts nil = refl
  parsed_of_Selects es ts (skip {e = e} {es = es'} o k) =
      rw (read_other e o, parsed_of_Selects es' ts k)
  parsed_of_Selects es ts (take {e = e} {t = t} {es = es'} {ts = ts'} o k) =
      rw (read_transfer e t o, parsed_of_Selects es' ts' k)

  -- The transfers are parsed to a list exactly if each event is one to pass over or a transfer of
  -- the denomination to the recipient, and the list has the latter, in order.
  pub parse_transfer_events_iff :
      (es : List Event) (ts : List TransferEvent)
      → (parse_transfer_events ext recipient denom es ≡ some ts) ↔ Selects es ts
  parse_transfer_events_iff es ts = (Selects-of_parsed es ts, parsed_of_Selects es ts)
