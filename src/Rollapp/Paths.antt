-- ===== src/Rollapp/Paths.antt =====
-- The address of a RollApp: its characters, and the way back from a page's address to the RollApp.
use mathlib.Core.List.{reverse, reverse-cons}
use dymension_rollapp_block.Common.{
  ℕ, ◌≤◌, ◌≡◌, ◌≢◌, ◌⊎◌, refl, true, inl, inr, Bool-cases, [], ◌∷◌, ◌++◌, some, All, All-append,
  All-map, All-imp, arith,
}
use dymension_rollapp_block.Common.Text.{Str, keep, skip, trim, is_space}
use dymension_rollapp_block.Common.Locale.{Locale}
use dymension_rollapp_block.Pathname.{segment, get_rollapp_path_from_pathname}
use dymension_rollapp_block.Pathname.Segments.{NoSlash, IsBehind, segment-append}
use dymension_rollapp_block.Rollapp.{is_kept, dash_of_space, path_name, get_rollapp_path_by_name}

-- The characters of a RollApp's address: `[a-z0-9-]`.
abbrev pub IsPathChar : ℕ → Type 0
IsPathChar c = ((b'a' ≤ c) × (c ≤ b'z')) ⊎ (((b'0' ≤ c) × (c ≤ b'9')) ⊎ (c ≡ b'-'))

abbrev pub IsKept : ℕ → Type 0
IsKept c = is_kept c ≡ true

keep-All : (s : Str) → All IsKept (keep is_kept s)
unfolding keep
keep-All [] = tt
keep-All (c ∷ s) = elim (Bool-cases (is_kept c)) [
  | inl kept ↦ rw (kept, keep) (kept, keep-All s)
  | inr dropped ↦ rw (dropped, keep) (keep-All s)
]

skip-All : (s : Str) → All IsKept s → All IsKept (skip is_space s)
unfolding skip
skip-All [] h = tt
skip-All (c ∷ s) h = ground (arith, skip-All s)

reverse-All : (s : Str) → All IsKept s → All IsKept (reverse s)
reverse-All [] h = h
reverse-All (c ∷ s) h =
    rw reverse-cons (All-append IsKept (reverse s) (c ∷ []) (reverse-All s h.1) (h.0, tt))

trim-All : (s : Str) → All IsKept s → All IsKept (trim s)
unfolding trim
trim-All s h = reverse-All _ (skip-All _ (reverse-All _ (skip-All s h)))

dash-IsPathChar : (c : ℕ) → IsKept c → IsPathChar (dash_of_space c)
unfolding dash_of_space
dash-IsPathChar c h = ground arith

path_name-All : (name : Str) → All IsPathChar (path_name name)
unfolding path_name
path_name-All name = All-map IsPathChar dash_of_space _ (
    All-imp IsKept (λ c. IsPathChar (dash_of_space c)) _ dash-IsPathChar
      (trim-All _ (keep-All name)))

path_name-NoSlash : (name : Str) → NoSlash (path_name name)
path_name-NoSlash name =
    All-imp IsPathChar (λ c. c ≢ b'/') (path_name name) (λ c h. omega arith) (path_name-All name)

-- Whatever the name of a RollApp is, its address is a slash and characters of `[a-z0-9-]`, and every
-- page behind that address leads back to it.
pub rollapp_path_round_trip :
    (locale : Locale) (name rest : Str)
    → IsBehind rest
    → (seg : Str) × (get_rollapp_path_by_name locale name ≡ b'/' ∷ seg)
      × All IsPathChar seg
      × (get_rollapp_path_from_pathname (get_rollapp_path_by_name locale name ++ rest)
          ≡ some (get_rollapp_path_by_name locale name))
unfolding get_rollapp_path_by_name get_rollapp_path_from_pathname
rollapp_path_round_trip locale name rest b =
    let lowered = locale.to_lower_case name in
    let seg = path_name lowered in
    let same : segment (seg ++ rest) ≡ seg =
      segment-append seg rest (path_name-NoSlash lowered) b in
    (seg, refl, path_name-All lowered, rw same)
