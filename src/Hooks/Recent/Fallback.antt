-- ===== src/Hooks/Recent/Fallback.antt =====
-- The numbers that the fallback asks for: every block stands on exactly one page.
use mathlib.Core.Path.{subst}
use dymension_rollapp_block.Common.{
  ℕ, zero, suc, ◌+◌, ◌-◌, ◌*◌, ◌/◌, ◌≤◌, ◌<◌, ◌≡◌, ◌↔◌, inl, inr, false, List, ◌==◌, min, ltb,
  Member, here, there, arith, Bool-cases,
}
use dymension_rollapp_block.Hooks.Attempt.{got, fails}
use dymension_rollapp_block.Hooks.Recent.{count_down, block_numbers}

count_down_sound : (top n b : ℕ) → n ≤ top → Member b (count_down top n) → (top - n < b) × (b ≤ top)
unfolding count_down
count_down_sound top zero b h m = elim m [ ]
count_down_sound top (suc n) b h here = (omega arith, omega arith)
count_down_sound top (suc n) b h (there m) =
    let (low, high) = count_down_sound (top - 1) n b (omega arith) m in (omega arith, omega arith)

count_down_complete : (top n b : ℕ) → n ≤ top → top - n < b → b ≤ top → Member b (count_down top n)
unfolding count_down
count_down_complete top zero b h low high = absurd (omega arith)
count_down_complete top (suc n) b h low high = elim (Bool-cases (b == top)) [
  | inl same ↦ let e : top ≡ b = ground arith in rw e here
  | inr other ↦ there (count_down_complete (top - 1) n b (omega arith) (omega arith) (ground arith))
]

quotient_iff :
    (size row page : ℕ)
    → 1 ≤ size
    → ((page * size ≤ row) × (row < page * size + size)) ↔ (page ≡ row / size)
quotient_iff size row page h = (λ (low, high). grind arith, λ e. rw e (grind arith, grind arith))

module _ (latest_block page page_size : ℕ) where
  numbers_behind :
      latest_block < page * page_size → block_numbers latest_block page page_size ≡ fails false
  unfolding block_numbers
  numbers_behind h = ground arith

  numbers_on :
      page * page_size ≤ latest_block
      → block_numbers latest_block page page_size
        ≡ got (
            count_down
              (latest_block - page * page_size)
              (min (latest_block - page * page_size) page_size))
  unfolding block_numbers
  numbers_on h = ground arith

-- A number is on a page, of those that the hook asks for there.
abbrev pub IsOn : (latest_block page_size page b : ℕ) → Type 0
IsOn latest_block page_size page b =
    (numbers : List ℕ) × (block_numbers latest_block page page_size ≡ got numbers)
    × Member b numbers

block_page_sound :
    (latest_block page_size page b : ℕ)
    → 1 ≤ page_size
    → IsOn latest_block page_size page b
    → (1 ≤ b) × (b ≤ latest_block) × (page ≡ (latest_block - b) / page_size)
block_page_sound latest_block page_size page b h (numbers, e, m) =
    elim (Bool-cases (ltb latest_block (page * page_size))) [
      | inl behind ↦
          let none_ = numbers_behind latest_block page page_size (ground arith) in absurd cc
      | inr on ↦
          let starts : page * page_size ≤ latest_block = ground arith in
          let top = latest_block - page * page_size in
          let asked = numbers_on latest_block page page_size starts in
          let same : numbers ≡ count_down top (min top page_size) = ground arith in
          let (low, high) =
            count_down_sound top (min top page_size) b (omega arith)
              (subst (λ ns. Member b ns) same m) in
          (
            omega arith,
            omega arith,
            (quotient_iff page_size (latest_block - b) page h).0 (omega arith, omega arith),
          )
    ]

block_page_complete :
    (latest_block page_size page b : ℕ)
    → 1 ≤ page_size
    → (1 ≤ b) × (b ≤ latest_block) × (page ≡ (latest_block - b) / page_size)
    → IsOn latest_block page_size page b
block_page_complete latest_block page_size page b h (low, high, e) =
    let (starts, ends) = (quotient_iff page_size (latest_block - b) page h).1 e in
    let top = latest_block - page * page_size in
    (
      count_down top (min top page_size),
      numbers_on latest_block page page_size (omega arith),
      count_down_complete top (min top page_size) b (omega arith) (omega arith) (omega arith),
    )

-- With a page size of 1 or more, every block from 1 to the latest one is asked for on the page
-- `(latest_block - b) / page_size` and on no other page, and no other number is asked for.
pub block_page_iff :
    (latest_block page_size page b : ℕ)
    → 1 ≤ page_size
    → IsOn latest_block page_size page b
      ↔ ((1 ≤ b) × (b ≤ latest_block) × (page ≡ (latest_block - b) / page_size))
block_page_iff latest_block page_size page b h = (
  block_page_sound latest_block page_size page b h,
  block_page_complete latest_block page_size page b h,
)
