-- ===== src/Table/Transactions/Labels.antt =====
-- What a row says of the messages of its transaction.
use dymension_rollapp_block.Common.{
  ◌≡◌, ◌≢◌, ◌↔◌, inl, inr, refl, true, false, Option, none, some, List, [], ◌∷◌, map, member-map,
  any, Member, here, there, member_cases, All-of_member, HasDistinct, Bool-cases, arith,
}
use mathlib.Core.Path.{subst}
use dymension_rollapp_block.Common.Text.{Str, text, ◌===◌, eq_of_===, ===_self}
use dymension_rollapp_block.Transaction.Names.{get_message_name}
use dymension_rollapp_block.Database.Accounts.{RecentTx}
use dymension_rollapp_block.Account.{todo_fields}
use dymension_rollapp_block.Table.Transactions.{
  MessageLabel, names_of_messages, distinct, message_names, chip_or, get_message_label,
}

abbrev pub self : Str → Str
self s = s

-- Seen: one of the texts before.
seen_of_member : (s : Str) (seen : List Str) → Member s seen → any (λ t. s === t) seen ≡ true
seen_of_member s seen here = rw (===_self s) refl
seen_of_member s seen (there {y = t} {xs = ss} m) = ground (arith, seen_of_member s ss m)

member_of_seen : (s : Str) (seen : List Str) → any (λ t. s === t) seen ≡ true → Member s seen
member_of_seen s [] h = absurd (ground arith)
member_of_seen s (t ∷ seen) h = elim (Bool-cases (s === t)) [
  | inl e ↦ rw (eq_of_=== s t e) here
  | inr e ↦ there (member_of_seen s seen (rw e at h))
]

distinct_sound :
    (s : Str) (ss seen : List Str)
    → Member s (distinct seen ss)
    → Member s ss × (any (λ t. s === t) seen ≡ false)
unfolding distinct
distinct_sound s [] seen m = elim m [ ]
distinct_sound s (t ∷ ss) seen m = elim (Bool-cases (any (λ u. t === u) seen)) [
  | inl old ↦ let (n, h) = distinct_sound s ss seen (rw old at m) in (there n, h)
  | inr new ↦ elim (member_cases s t (distinct (t ∷ seen) ss) (rw new at m)) [
    | inl same ↦ rw (← same) (here, new)
    | inr later ↦ let (n, h) = distinct_sound s ss (t ∷ seen) later in (there n, ground arith)
  ]
]

distinct_complete :
    (s : Str) (ss seen : List Str)
    → Member s ss
    → any (λ t. s === t) seen ≡ false
    → Member s (distinct seen ss)
unfolding distinct
distinct_complete s ts seen here h = rw h here
distinct_complete s ts seen (there {y = t} {xs = ss} m) h =
    elim (Bool-cases (any (λ u. t === u) seen)) [
      | inl old ↦ rw old (distinct_complete s ss seen m h)
      | inr new ↦ elim (Bool-cases (s === t)) [
        | inl same ↦ rw (new, eq_of_=== s t same) here
        | inr other ↦ rw new (there (distinct_complete s ss (t ∷ seen) m (ground arith)))
      ]
    ]

distinct-HasDistinct : (ss seen : List Str) → HasDistinct self (distinct seen ss)
unfolding distinct
distinct-HasDistinct [] seen = tt
distinct-HasDistinct (t ∷ ss) seen = elim (Bool-cases (any (λ u. t === u) seen)) [
  | inl old ↦ rw old (distinct-HasDistinct ss seen)
  | inr new ↦ rw new (
    All-of_member (λ s. s ≢ t) (distinct (t ∷ seen) ss)
        (λ s m e. let (n, h) = distinct_sound s ss (t ∷ seen) m in ground (arith, ===_self t)),
    distinct-HasDistinct ss (t ∷ seen),
  )
]

member_of_map :
    (f : Str → Str) (n : Str) (ms : List Str)
    → Member n (map f ms)
    → (m : Str) × Member m ms × (f m ≡ n)
member_of_map f n [] m = elim m [ ]
member_of_map f n (x ∷ ms) m = elim (member_cases n (f x) (map f ms) m) [
  | inl e ↦ (x, here, e)
  | inr later ↦ let (y, k, e) = member_of_map f n ms later in (y, there k, e)
]

names_once :
    (ms : List Str) (n : Str)
    → Member n (distinct [] (map get_message_name ms))
      ↔ ((m : Str) × Member m ms × (get_message_name m ≡ n))
names_once ms n = (
  (λ k. member_of_map get_message_name n ms (distinct_sound n (map get_message_name ms) [] k).0),
  λ (m, k, e).
      distinct_complete n (map get_message_name ms) []
        (subst (λ x. Member x (map get_message_name ms)) e (member-map get_message_name m ms k))
        refl,
)

chip_or_other :
    (names : MessageLabel) (tx_type label : Str)
    → tx_type ≢ text "evm"
    → tx_type ≢ text "wasm"
    → chip_or names tx_type label ≡ names
unfolding chip_or
chip_or_other names tx_type [] e w = refl
chip_or_other names tx_type (c ∷ label) e w = elim (Bool-cases (tx_type === text "evm")) [
  | inl h ↦ absurd (e (eq_of_=== tx_type _ h))
  | inr h ↦ elim (Bool-cases (tx_type === text "wasm")) [
    | inl k ↦ absurd (w (eq_of_=== tx_type _ k))
    | inr k ↦ rw (h, k) refl
  ]
]

label_of_other :
    (message_types : List Str) (action : Option Str) (tx_type : Str)
    → tx_type ≢ text "evm"
    → tx_type ≢ text "wasm"
    → get_message_label message_types action tx_type ≡ message_names message_types
unfolding get_message_label
label_of_other message_types none tx_type e w = refl
label_of_other message_types (some action) tx_type e w =
    chip_or_other (message_names message_types) tx_type _ e w

-- The row of an account's transaction shows the names of its messages, each of them once, and never
-- its action.
pub account_rows_named :
    (i : RecentTx)
    → let t = todo_fields i in
      (names : List Str) × (get_message_label t.message_types t.action t.tx_type
        ≡ names_of_messages names)
      × HasDistinct self names
      × ((n : Str)
          → Member n names ↔ ((m : Str) × Member m i.message_types × (get_message_name m ≡ n)))
unfolding message_names
account_rows_named i = (
  distinct [] (map get_message_name i.message_types),
  label_of_other i.message_types i.action (text "TODO") (λ e. ground arith) (λ e. ground arith),
  distinct-HasDistinct (map get_message_name i.message_types) [],
  names_once i.message_types,
)
