-- ===== src/Common/Sort.antt =====
-- `Array.prototype.sort` with a comparator: the stable sort, which is the one result that the
-- language allows for a comparator that is a total order.
use Prim.Native.Nat.{Ordering}
use mathlib.Core.Path.{◌≡◌, refl}
use mathlib.Core.Logic.{◌≢◌, ◌⊎◌, inl, inr}
use mathlib.Core.List.{List, [], ◌∷◌, Perm}
use mathlib.Core.List.Perm
use native.Mathlib.Omega.{arith}
use dymension_rollapp_block.Common.Lists.{
  All, All-imp, All-member, All-of_member, Member, here, there,
}

Ordering-cases : (o : Ordering) → (o ≡ Ordering.gt) ⊎ (o ≢ Ordering.gt)
Ordering-cases Ordering.gt = inl refl
Ordering-cases Ordering.lt = inr (λ e. cc)
Ordering-cases Ordering.eq = inr (λ e. cc)

module _ {ℓ} {A : Type ℓ} (cmp : A → A → Ordering) where
  -- `x` goes before the first element that it does not exceed.
  unfoldable pub insert : A → List A → List A
  insert x [] = x ∷ []
  insert x (y ∷ ys) = elim (cmp x y) [ Ordering.gt ↦ y ∷ insert x ys | _ ↦ x ∷ y ∷ ys ]

  unfoldable pub sort : List A → List A
  unfolding insert
  sort [] = []
  sort (x ∷ xs) = insert x (sort xs)

  abbrev pub Le : A → A → Type 0
  Le x y = cmp x y ≢ Ordering.gt

  -- Each element is at most each later one.
  abbrev pub IsSorted : List A → Type 0
  IsSorted [] = Unit
  IsSorted (x ∷ xs) = All (Le x) xs × IsSorted xs

  insert-perm : (x : A) (ys : List A) → Perm (insert x ys) (x ∷ ys)
  unfolding insert
  insert-perm x [] = Perm.refl _
  insert-perm x (y ∷ ys) =
      elim (cmp x y)
        as (λ o. Perm (elim o [ Ordering.gt ↦ y ∷ insert x ys | _ ↦ x ∷ y ∷ ys ]) (x ∷ y ∷ ys)) [
          | Ordering.gt ↦ Perm.trans (Perm.cons y (insert-perm x ys)) (Perm.swap x y ys)
          | Ordering.lt ↦ Perm.refl _
          | Ordering.eq ↦ Perm.refl _
        ]

  pub sort-perm : (xs : List A) → Perm (sort xs) xs
  unfolding sort
  sort-perm [] = Perm.refl []
  sort-perm (x ∷ xs) = Perm.trans (insert-perm x (sort xs)) (Perm.cons x (sort-perm xs))

  All-insert {κ} : (P : A → Type κ) (x : A) (ys : List A) → P x → All P ys → All P (insert x ys)
  unfolding insert
  All-insert P x [] p h = (p, tt)
  All-insert P x (y ∷ ys) p h =
      elim (cmp x y) as (λ o. All P (elim o [ Ordering.gt ↦ y ∷ insert x ys | _ ↦ x ∷ y ∷ ys ])) [
        | Ordering.gt ↦ (h.0, All-insert P x ys p h.1)
        | Ordering.lt ↦ (p, h)
        | Ordering.eq ↦ (p, h)
      ]

  pub All-sort {κ} : (P : A → Type κ) (xs : List A) → All P xs → All P (sort xs)
  unfolding sort
  All-sort P [] h = h
  All-sort P (x ∷ xs) h = All-insert P x (sort xs) h.0 (All-sort P xs h.1)

  insert_below : (x y : A) (ys : List A) → Le x y → insert x (y ∷ ys) ≡ x ∷ y ∷ ys
  unfolding insert
  insert_below x y ys below = ground arith

  -- With a comparator that is a total preorder the result is in order.
  module _ (total : (x y : A) → cmp x y ≡ Ordering.gt → Le y x)
      (trans : (x y z : A) → Le x y → Le y z → Le x z) where
    insert-IsSorted : (x : A) (ys : List A) → IsSorted ys → IsSorted (insert x ys)
    unfolding insert
    insert-IsSorted x [] h = (tt, tt)
    insert-IsSorted x (y ∷ ys) h = elim (Ordering-cases (cmp x y)) [
      | inl above ↦
          rw (above, insert)
            (All-insert (Le y) x ys (total x y above) h.0, insert-IsSorted x ys h.1)
      | inr below ↦
          rw (insert_below x y ys below)
            ((below, All-imp (Le y) (Le x) ys (λ z. trans x y z below) h.0), h)
    ]

    pub sort-IsSorted : (xs : List A) → IsSorted (sort xs)
    unfolding sort
    sort-IsSorted [] = tt
    sort-IsSorted (x ∷ xs) = insert-IsSorted x (sort xs) (sort-IsSorted xs)

  -- The elements of the result are those of the list.
  pub member_of_sort : (x : A) (xs : List A) → Member x (sort xs) → Member x xs
  member_of_sort x xs =
      All-member (λ y. Member y xs) x (sort xs)
        (All-sort (λ y. Member y xs) xs (All-of_member (λ y. Member y xs) xs (λ y m. m)))

  insert_self : (x : A) (ys : List A) → Member x (insert x ys)
  unfolding insert
  insert_self x [] = here
  insert_self x (y ∷ ys) = elim (Ordering-cases (cmp x y)) [
    | inl above ↦ rw (above, insert) (there (insert_self x ys))
    | inr below ↦ rw (insert_below x y ys below) here
  ]

  insert_there : (x z : A) (ys : List A) → Member z ys → Member z (insert x ys)
  unfolding insert
  insert_there x z ys (here {xs = zs}) = elim (Ordering-cases (cmp x z)) [
    | inl above ↦ rw (above, insert) here
    | inr below ↦ rw (insert_below x z zs below) (there here)
  ]
  insert_there x z ys (there {y = y} {xs = zs} m) = elim (Ordering-cases (cmp x y)) [
    | inl above ↦ rw (above, insert) (there (insert_there x z zs m))
    | inr below ↦ rw (insert_below x y zs below) (there (there m))
  ]

  pub sort_of_member : (x : A) (xs : List A) → Member x xs → Member x (sort xs)
  unfolding sort
  sort_of_member x xs (here {xs = ys}) = insert_self x (sort ys)
  sort_of_member x xs (there {y = y} {xs = ys} m) =
      insert_there y x (sort ys) (sort_of_member x ys m)
