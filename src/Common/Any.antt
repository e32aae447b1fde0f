-- ===== src/Common/Any.antt =====
-- Some element of a list that passes a test.
use mathlib.Core.Path.{◌≡◌, refl}
use mathlib.Core.Logic.{◌↔◌, ◌⊎◌, inl, inr}
use mathlib.Core.Bool.{Bool, true, false, ◌||◌}
use mathlib.Core.List.{List, [], ◌∷◌}
use native.Mathlib.Omega.{arith}
use dymension_rollapp_block.Common.Lists.{any, Member, here, there}

pub ||_iff : (a b : Bool) → ((a || b) ≡ true) ↔ ((a ≡ true) ⊎ (b ≡ true))
||_iff true b = ((λ h. inl refl), λ h. refl)
||_iff false b = ((λ h. inr h), λ h. elim h [ inl k ↦ absurd (ground arith) | inr k ↦ k ])

pub any_found :
    {A : Type 0} (p : A → Bool) (xs : List A)
    → any p xs ≡ true
    → (x : A) × Member x xs × (p x ≡ true)
any_found p [] h = absurd (ground arith)
any_found p (x ∷ xs) h = elim ((||_iff (p x) (any p xs)).0 h) [
  | inl k ↦ (x, here, k)
  | inr k ↦ let (y, m, e) = any_found p xs k in (y, there m, e)
]

pub any_of :
    {A : Type 0} (p : A → Bool) (x : A) (xs : List A) → Member x xs → p x ≡ true → any p xs ≡ true
any_of p x xs here h = rw h refl
any_of p x xs (there {y = y} {xs = ys} m) h = (||_iff (p y) (any p ys)).1 (inr (any_of p x ys m h))
