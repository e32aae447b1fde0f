-- ===== src/Transaction/Packets.antt =====
-- The eIBC packets of a transaction, web-app/src/components/client/transaction/TransactionDetailPage.tsx.
use dymension_rollapp_block.Common.{
  ◌≡◌, ◌↔◌, inl, inr, refl, ap, ◌∙◌, Bool, true, Option, none, some, List, [], ◌∷◌, find, any,
  any_found, any_of, Member, here, there, member_cases, arith, Bool-cases, Option-cases,
  if◌then◌else◌,
}
use mathlib.Core.Path.{subst}
use dymension_rollapp_block.Common.Text.{Str, text, ◌===◌, ===_iff, ===_self, eq_of_===, includes}

-- `Event` of consts/rpcResTypes.ts. A value that is no string is none.
pub record Attribute : Type 0 where
  pub key : Str
  pub value : Option Str

pub record TxEvent : Type 0 where
  pub type_ : Str
  pub attributes : List Attribute

pub record Packet : Type 0 where
  pub port : Str
  pub channel : Str
  pub sequence : Str

-- An empty value is undefined.
abbrev pub value_of : Option Attribute → Option Str
value_of none = none
value_of (some attr) = elim attr.value [
  | none ↦ none
  | some [] ↦ none
  | some (c ∷ s) ↦ some (c ∷ s)
]

unfoldable pub get_attribute_value : TxEvent → Str → Option Str
unfolding ◌===◌
get_attribute_value event key = value_of (find (λ attr. attr.key === key) event.attributes)

-- The last three attributes, which all must be there.
abbrev pub packet_from : (port channel sequence : Option Str) → Option Packet
packet_from (some port) (some channel) (some sequence) =
    some (record { port = port; channel = channel; sequence = sequence })
packet_from none channel sequence = none
packet_from (some port) none sequence = none
packet_from (some port) (some channel) none = none

-- The packet of an event whose data speak of eIBC.
unfoldable pub if_eibc : (packet_data : Option Str) → Option Packet → Option Packet
unfolding includes
if_eibc none packet = none
if_eibc (some packet_data) packet = if includes packet_data (text "eibc") then packet else none

-- The body of the loop over the events: `none` is `continue`.
unfoldable pub packet_of : TxEvent → Option Packet
unfolding get_attribute_value if_eibc ◌===◌
packet_of event =
    let packet =
      packet_from (get_attribute_value event (text "packet_dst_port"))
        (get_attribute_value event (text "packet_dst_channel"))
        (get_attribute_value event (text "packet_sequence")) in
    if event.type_ === text "send_packet"
    then if_eibc (get_attribute_value event (text "packet_data")) packet
    else none

unfoldable pub packets_of : List TxEvent → List Packet
unfolding packet_of
packets_of [] = []
packets_of (event ∷ events) =
    let rest = packets_of events in elim (packet_of event) [ none ↦ rest | some p ↦ p ∷ rest ]

unfoldable pub any_ibc_transfer : List Str → Bool
unfolding ◌===◌
any_ibc_transfer types = any (λ t. t === text "ibc.applications.transfer.v1.MsgTransfer") types

-- The types of the messages and the events, each of which may be undefined.
unfoldable pub eibc : Option (List Str) → Option (List TxEvent) → List Packet
unfolding any_ibc_transfer packets_of
eibc none events = []
eibc (some types) none = []
eibc (some types) (some events) = if any_ibc_transfer types then packets_of events else []

packets_sound :
    (events : List TxEvent) (p : Packet)
    → Member p (packets_of events)
    → (e : TxEvent) × Member e events × (packet_of e ≡ some p)
unfolding packets_of
packets_sound [] p m = elim m [ ]
packets_sound (e ∷ events) p m = elim (Option-cases (packet_of e)) [
  | inl h ↦ let (f, n, k) = packets_sound events p (rw (h, packets_of) at m) in (f, there n, k)
  | inr (q, h) ↦ elim (member_cases p q (packets_of events) (rw (h, packets_of) at m)) [
    | inl same ↦ (e, here, h ∙ ap (λ (x : Packet). some x) same)
    | inr later ↦ let (f, n, k) = packets_sound events p later in (f, there n, k)
  ]
]

packets_complete :
    (p : Packet) (e : TxEvent) (events : List TxEvent)
    → Member e events
    → packet_of e ≡ some p
    → Member p (packets_of events)
unfolding packets_of
packets_complete p e events here k = rw (k, packets_of) here
packets_complete p e events (there {y = f} {xs = rest} m) k = elim (Option-cases (packet_of f)) [
  | inl h ↦ rw (h, packets_of) (packets_complete p e rest m k)
  | inr (q, h) ↦ rw (h, packets_of) (there (packets_complete p e rest m k))
]

-- What an event must be: a packet that is sent, whose data speak of eIBC, with its three attributes.
abbrev pub IsSent : TxEvent → Packet → Type 0
IsSent e p =
    (e.type_ ≡ text "send_packet")
    × ((s : Str) × (get_attribute_value e (text "packet_data") ≡ some s)
        × (includes s (text "eibc") ≡ true))
    × (get_attribute_value e (text "packet_dst_port") ≡ some p.port)
    × (get_attribute_value e (text "packet_dst_channel") ≡ some p.channel)
    × (get_attribute_value e (text "packet_sequence") ≡ some p.sequence)

packet_from_iff :
    (a b c : Option Str) (p : Packet)
    → (packet_from a b c ≡ some p)
      ↔ ((a ≡ some p.port) × (b ≡ some p.channel) × (c ≡ some p.sequence))
packet_from_iff none b c p = ((λ h. absurd (ground arith)), λ (h, k, l). absurd (ground arith))
packet_from_iff (some a) none c p =
    ((λ h. absurd (ground arith)), λ (h, k, l). absurd (ground arith))
packet_from_iff (some a) (some b) none p =
    ((λ h. absurd (ground arith)), λ (h, k, l). absurd (ground arith))
packet_from_iff (some a) (some b) (some c) p = (
  (λ h.
      let same : record { port = a; channel = b; sequence = c } ≡ p = ground arith in
      (
        ap (λ (q : Packet). some q.port) same,
        ap (λ (q : Packet). some q.channel) same,
        ap (λ (q : Packet). some q.sequence) same,
      )),
  λ (h, k, l).
      let port : a ≡ p.port = ground arith in
      let channel : b ≡ p.channel = ground arith in
      let sequence : c ≡ p.sequence = ground arith in rw (port, channel, sequence) refl,
)

if_eibc_iff :
    (d : Option Str) (q : Option Packet) (p : Packet)
    → (if_eibc d q ≡ some p)
      ↔ (((s : Str) × (d ≡ some s) × (includes s (text "eibc") ≡ true)) × (q ≡ some p))
unfolding if_eibc
if_eibc_iff none q p = ((λ h. absurd (ground arith)), λ ((s, h, k), l). absurd (ground arith))
if_eibc_iff (some d) q p = elim (Bool-cases (includes d (text "eibc"))) [
  | inl holds ↦ ((λ h. ((d, refl, holds), rw holds at h)), λ (h, k). rw holds k)
  | inr fails ↦ (
    (λ h. absurd (ground arith)),
    λ ((s, h, k), l). let same : d ≡ s = ground arith in absurd (ground arith),
  )
]

packet_of_iff : (e : TxEvent) (p : Packet) → (packet_of e ≡ some p) ↔ IsSent e p
unfolding packet_of
packet_of_iff e p =
    let content = get_attribute_value e (text "packet_data") in
    let port = get_attribute_value e (text "packet_dst_port") in
    let channel = get_attribute_value e (text "packet_dst_channel") in
    let sequence = get_attribute_value e (text "packet_sequence") in
    let wanted = if_eibc_iff content (packet_from port channel sequence) p in
    let whole = packet_from_iff port channel sequence p in
    let type = ===_iff e.type_ (text "send_packet") in
    elim (Bool-cases (e.type_ === text "send_packet")) [
      | inl holds ↦ (
        (λ h.
            let (d, k) = wanted.0 (rw holds at h) in
            let (a, b, c) = whole.0 k in (type.0 holds, d, a, b, c)),
        λ (t, d, a, b, c). rw holds (wanted.1 (d, whole.1 (a, b, c))),
      )
      | inr fails ↦
          ((λ h. absurd (ground arith)), λ (t, d, a, b, c). absurd (ground (arith, type.1 t)))
    ]

-- The packets that a transaction links to are those of its `send_packet` events whose data speak of
-- eIBC and which name the port, the channel and the sequence; and there are none unless a message of
-- the transaction is an IBC transfer.
pub packet_listed_iff :
    (types : List Str) (events : List TxEvent) (p : Packet)
    → Member p (eibc (some types) (some events)) ↔ (
        Member (text "ibc.applications.transfer.v1.MsgTransfer") types
        × ((e : TxEvent) × Member e events × IsSent e p))
unfolding eibc any_ibc_transfer
packet_listed_iff types events p =
    let transfer = text "ibc.applications.transfer.v1.MsgTransfer" in
    elim (Bool-cases (any_ibc_transfer types)) [
      | inl holds ↦
          let (t, m, same) = any_found (λ t. t === transfer) types holds in
          let found = subst (λ u. Member u types) (eq_of_=== t transfer same) m in
          (
            (λ k.
                let (e, n, h) = packets_sound events p (rw holds at k) in
                (found, (e, n, (packet_of_iff e p).0 h))),
            λ (f, (e, n, h)). rw holds (packets_complete p e events n ((packet_of_iff e p).1 h)),
          )
      | inr fails ↦ (
        (λ k. elim (rw fails at k) [ ]),
        λ (f, rest).
            absurd
              (ground (arith, any_of (λ t. t === transfer) transfer types f (===_self transfer))),
      )
    ]
