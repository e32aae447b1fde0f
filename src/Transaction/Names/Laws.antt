-- ===== src/Transaction/Names/Laws.antt =====
-- What `getMessageName` makes of a message type.
use dymension_rollapp_block.Common.{
  Bool, List, ◌&&◌, all, drop, Member, here, there, ℕ, ◌≡◌, ◌⊎◌, refl, ap, true, false, none, [],
  ◌∷◌, ◌++◌, arith, Bool-cases, inl, inr, ◌==◌,
}
use dymension_rollapp_block.Common.Text.{Str, ◌===◌, eq_of_===}
use dymension_rollapp_block.Common.Dict.{get}
use dymension_rollapp_block.Transaction.Names.{
  names, has_dot, last_part, with_slash, name_of, get_message_name,
}

-- A row of the table has its name with its slash and without.
named_right : Str × Str → Bool
named_right (message_type, name) =
    get_message_name message_type === name && get_message_name (drop 1 message_type) === name

table_is_right : all named_right names ≡ true
unfolding named_right names get_message_name ◌===◌
table_is_right = refl

holds_of_member :
    {A : Type 0} (p : A → Bool) (x : A) (xs : List A) → all p xs ≡ true → Member x xs → p x ≡ true
holds_of_member p x xs h here = ground arith
holds_of_member p x xs h (there {xs = ys} m) = holds_of_member p x ys (ground arith) m

row_named :
    (message_type name : Str)
    → named_right (message_type, name) ≡ true
    → (get_message_name message_type ≡ name) × (get_message_name (drop 1 message_type) ≡ name)
unfolding named_right
row_named message_type name h = (eq_of_=== _ name (ground arith), eq_of_=== _ name (ground arith))

-- Every message type of the table is given its name there, with its leading slash and without it.
pub table_named :
    (message_type name : Str)
    → Member (message_type, name) names
    → (get_message_name message_type ≡ name) × (get_message_name (drop 1 message_type) ≡ name)
table_named message_type name m =
    row_named message_type name
      (holds_of_member named_right (message_type, name) names table_is_right m)

-- A text is a prefix and its part behind the last dot.
abbrev Parted : Str → Str → Type 0
Parted s part =
    (prefix : Str) × (s ≡ prefix ++ part)
    × (has_dot part ≡ false)
    × ((prefix ≡ []) ⊎ ((front : Str) × (prefix ≡ front ++ b'.' ∷ [])))

Parted-later : (c : ℕ) (s part : Str) → has_dot s ≡ true → Parted s part → Parted (c ∷ s) part
Parted-later c s part later (prefix, e, h, inl p) =
    absurd (ground (arith, ap has_dot e, ap (λ (q : Str). has_dot (q ++ part)) p))
Parted-later c s part later (prefix, e, h, inr (front, p)) =
    (c ∷ prefix, ap (◌∷◌ c) e, h, inr (c ∷ front, ap (◌∷◌ c) p))

last_part-Parted : (s : Str) → Parted s (last_part s)
unfolding last_part
last_part-Parted [] = ([], refl, refl, inl refl)
last_part-Parted (c ∷ s) = elim (Bool-cases (has_dot s)) [
  | inl later ↦ rw later (Parted-later c s (last_part s) later (last_part-Parted s))
  | inr last ↦ elim (Bool-cases (c == b'.')) [
    | inl dot ↦ rw (last, dot) (c ∷ [], refl, last, inr ([], ground arith))
    | inr other ↦ rw (last, other) ([], refl, ground arith, inl refl)
  ]
]

-- A message type that the table does not have, with its slash, is named by its part behind the last
-- dot: the name ends the type, holds no dot, and nothing or a dot stands before it.
pub other_name :
    (message_type : Str)
    → get names (with_slash message_type) ≡ none
    → (prefix : Str) × (with_slash message_type ≡ prefix ++ get_message_name message_type)
      × (has_dot (get_message_name message_type) ≡ false)
      × ((prefix ≡ []) ⊎ ((front : Str) × (prefix ≡ front ++ b'.' ∷ [])))
unfolding get_message_name name_of
other_name message_type h = rw (h, name_of) (last_part-Parted (with_slash message_type))
