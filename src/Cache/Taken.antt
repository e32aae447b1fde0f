-- ===== src/Cache/Taken.antt =====
-- The calls that wait: one of them is taken out.
use dymension_rollapp_block.Common.{
  ℕ, zero, suc, ◌≡◌, sym, inl, inr, some, List, [], ◌∷◌, Member, here, there, member_cases, arith,
  Option-cases,
}
use mathlib.Core.Path.{subst}
use dymension_rollapp_block.Cache.{taken}

member_behind :
    {A : Type 0} (z y : A) (xs ws : List A)
    → ((v : A) → Member v ws → Member v xs)
    → Member y (z ∷ ws)
    → Member y (z ∷ xs)
member_behind z y xs ws kept m = elim (member_cases y z ws m) [
  | inl first ↦ subst (λ v. Member v (z ∷ xs)) first here
  | inr later ↦ there (kept y later)
]

pub taken_member :
    {A : Type 0} (xs : List A) (i : ℕ) (x : A) (ys : List A)
    → taken xs i ≡ some (x, ys)
    → Member x xs × ((y : A) → Member y ys → Member y xs)
taken_member [] i x ys e = absurd (ground arith)
taken_member (z ∷ xs) zero x ys e =
    let first : z ≡ x = ground arith in
    let others : xs ≡ ys = ground arith in
    (rw first here, λ y m. there (subst (λ zs. Member y zs) (sym others) m))
taken_member (z ∷ xs) (suc i) x ys e = elim (Option-cases (taken xs i)) [
  | inl missing ↦ absurd (ground arith)
  | inr ((w, ws), found) ↦
      let (at, kept) = taken_member xs i w ws found in
      let same : w ≡ x = ground arith in
      let rest : z ∷ ws ≡ ys = ground arith in
      (
        subst (λ y. Member y (z ∷ xs)) same (there at),
        λ y m. member_behind z y xs ws kept (subst (λ zs. Member y zs) (sym rest) m),
      )
]
