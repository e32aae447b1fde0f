-- ===== src/Common/Lists.antt =====
-- Lists (arrays of the source) measured by native numbers, and predicates on their elements.
use Prim.Native.Nat.{ℕ, zero, suc, ◌+◌, ◌-◌, ◌<◌, min}
use mathlib.Core.Path.{◌≡◌, refl, ap, sym}
use mathlib.Core.Logic.{◌≢◌, ◌↔◌, ◌⊎◌, inl, inr}
use mathlib.Core.Bool.{Bool, true, false, ◌&&◌, ◌||◌}
use mathlib.Core.List.{List, [], ◌∷◌, ◌++◌, map}
use mathlib.Core.Option.{Option, none, some}
use native.Mathlib.Omega.{arith}
use dymension_rollapp_block.Common.Tests.{if◌then◌else◌, Bool-cases}

module _ {ℓ} {A : Type ℓ} where
  abbrev pub length : List A → ℕ
  length [] = 0
  length (x ∷ xs) = suc (length xs)

  abbrev pub get_elem? : List A → ℕ → Option A
  get_elem? [] i = none
  get_elem? (x ∷ xs) zero = some x
  get_elem? (x ∷ xs) (suc i) = get_elem? xs i

  abbrev pub take : ℕ → List A → List A
  take zero xs = []
  take (suc n) [] = []
  take (suc n) (x ∷ xs) = x ∷ take n xs

  abbrev pub drop : ℕ → List A → List A
  drop zero xs = xs
  drop (suc n) [] = []
  drop (suc n) (x ∷ xs) = drop n xs

  -- `Array.prototype.every`, `some`, `filter` and `find`
  abbrev pub all : (A → Bool) → List A → Bool
  all p [] = true
  all p (x ∷ xs) = p x && all p xs

  abbrev pub any : (A → Bool) → List A → Bool
  any p [] = false
  any p (x ∷ xs) = p x || any p xs

  abbrev pub filter : (A → Bool) → List A → List A
  filter p [] = []
  filter p (x ∷ xs) = if p x then x ∷ filter p xs else filter p xs

  abbrev pub find : (A → Bool) → List A → Option A
  find p [] = none
  find p (x ∷ xs) = if p x then some x else find p xs

  -- A property of every element.
  abbrev pub All {κ} : (A → Type κ) → List A → Type κ
  All P [] = Unit
  All P (x ∷ xs) = P x × All P xs

  -- `Member x xs` says where an element stands in a list.
  pub data Member (x : A) : List A → Type ℓ where
    here : {xs : List A} → Member x (x ∷ xs)
    there : {y : A} {xs : List A} → Member x xs → Member x (y ∷ xs)

  pub length-append : (xs ys : List A) → length (xs ++ ys) ≡ length xs + length ys
  length-append [] ys = omega arith
  length-append (x ∷ xs) ys = omega (arith, length-append xs ys)

  pub length-drop : (n : ℕ) (xs : List A) → length (drop n xs) ≡ length xs - n
  length-drop zero xs = omega arith
  length-drop (suc n) [] = omega arith
  length-drop (suc n) (x ∷ xs) = omega (arith, length-drop n xs)

  pub length-take : (n : ℕ) (xs : List A) → length (take n xs) ≡ min n (length xs)
  length-take zero xs = omega arith
  length-take (suc n) [] = omega arith
  length-take (suc n) (x ∷ xs) = omega (arith, length-take n xs)

  pub take-append-drop : (n : ℕ) (xs : List A) → take n xs ++ drop n xs ≡ xs
  take-append-drop zero xs = refl
  take-append-drop (suc n) [] = refl
  take-append-drop (suc n) (x ∷ xs) = ap (◌∷◌ x) (take-append-drop n xs)

module _ {ℓ} {A : Type ℓ} where
  pub length-map {κ} : {B : Type κ} (xs : List A) (f : A → B) → length (map f xs) ≡ length xs
  length-map [] f = refl
  length-map (x ∷ xs) f = ap suc (length-map xs f)

  pub All-append {κ} : (P : A → Type κ) (xs ys : List A) → All P xs → All P ys → All P (xs ++ ys)
  All-append P [] ys hx hy = hy
  All-append P (x ∷ xs) ys hx hy = (hx.0, All-append P xs ys hx.1 hy)

  pub All-map {κ μ} :
      {B : Type κ} (P : B → Type μ) (f : A → B) (xs : List A)
      → All (λ x. P (f x)) xs
      → All P (map f xs)
  All-map P f [] h = tt
  All-map P f (x ∷ xs) h = (h.0, All-map P f xs h.1)

  pub All-imp {κ μ} :
      (P : A → Type κ) (Q : A → Type μ) (xs : List A) → ((x : A) → P x → Q x) → All P xs → All Q xs
  All-imp P Q [] f h = tt
  All-imp P Q (x ∷ xs) f h = (f x h.0, All-imp P Q xs f h.1)

  pub All-drop {κ} : (P : A → Type κ) (n : ℕ) (xs : List A) → All P xs → All P (drop n xs)
  All-drop P zero xs h = h
  All-drop P (suc n) [] h = h
  All-drop P (suc n) (x ∷ xs) h = All-drop P n xs h.1

  pub All-member {κ} : (P : A → Type κ) (x : A) (xs : List A) → All P xs → Member x xs → P x
  All-member P x xs h here = h.0
  All-member P x xs h (there {xs = ys} m) = All-member P x ys h.1 m

  pub All-of_member {κ} : (P : A → Type κ) (xs : List A) → ((x : A) → Member x xs → P x) → All P xs
  All-of_member P [] f = tt
  All-of_member P (x ∷ xs) f = (f x here, All-of_member P xs (λ y m. f y (there m)))

module _ {ℓ κ} {A : Type ℓ} {K : Type κ} (key : A → K) where
  -- No two elements have the same key.
  abbrev pub HasDistinct : List A → Type κ
  HasDistinct [] = Unit
  HasDistinct (x ∷ xs) = All (λ y. key y ≢ key x) xs × HasDistinct xs

  -- Of elements with distinct keys, the key tells which one it is.
  pub member_unique :
      (x y : A) (xs : List A) → HasDistinct xs → Member x xs → Member y xs → key x ≡ key y → x ≡ y
  member_unique x y xs d here here e = refl
  member_unique x y xs d here (there {xs = ys} m) e =
      absurd (All-member (λ z. key z ≢ key x) y ys d.0 m (sym e))
  member_unique x y xs d (there {xs = ys} m) here e =
      absurd (All-member (λ z. key z ≢ key y) x ys d.0 m e)
  member_unique x y xs d (there {xs = ys} m) (there n) e = member_unique x y ys d.1 m n e

module _ {ℓ} {A : Type ℓ} where
  pub find_sound :
      (p : A → Bool) (xs : List A) (x : A) → find p xs ≡ some x → Member x xs × (p x ≡ true)
  find_sound p [] x e = cc
  find_sound p (y ∷ xs) x e = elim (Bool-cases (p y)) [
    | inl yes_y ↦ let same : y ≡ x = ground arith in rw (← same) (here, yes_y)
    | inr no_y ↦ let (m, h) = find_sound p xs x (ground arith) in (there m, h)
  ]

  pub find_of_member :
      (p : A → Bool) (x : A) (xs : List A)
      → Member x xs
      → p x ≡ true
      → (y : A) × (find p xs ≡ some y)
  find_of_member p x xs here h = (x, rw h)
  find_of_member p x xs (there {y = z} {xs = ys} m) h = elim (Bool-cases (p z)) [
    | inl yes_z ↦ (z, rw yes_z)
    | inr no_z ↦ rw no_z (find_of_member p x ys m h)
  ]

  pub member-map {κ} :
      {B : Type κ} (f : A → B) (x : A) (xs : List A) → Member x xs → Member (f x) (map f xs)
  member-map f x xs here = here
  member-map f x xs (there {xs = ys} m) = there (member-map f x ys m)

module _ {ℓ} {A : Type ℓ} (p : A → Bool) where
  head_or_tail :
      (x y : A) (xs : List A)
      → p y ≡ true
      → Member x (y ∷ filter p xs)
      → (Member x (filter p xs) → Member x xs × (p x ≡ true))
      → Member x (y ∷ xs) × (p x ≡ true)
  head_or_tail x y xs h here f = (here, h)
  head_or_tail x y xs h (there m) f = let (n, k) = f m in (there n, k)

  filter_sound : (x : A) (xs : List A) → Member x (filter p xs) → Member x xs × (p x ≡ true)
  filter_sound x [] m = elim m [ ]
  filter_sound x (y ∷ xs) m = elim (Bool-cases (p y)) [
    | inl kept ↦ head_or_tail x y xs kept (rw kept at m) (filter_sound x xs)
    | inr dropped ↦ let (n, h) = filter_sound x xs (rw dropped at m) in (there n, h)
  ]

  filter_complete : (x : A) (xs : List A) → Member x xs → p x ≡ true → Member x (filter p xs)
  filter_complete x xs here h = rw h here
  filter_complete x xs (there {y = y} {xs = ys} m) h = elim (Bool-cases (p y)) [
    | inl kept ↦ rw kept (there (filter_complete x ys m h))
    | inr dropped ↦ rw dropped (filter_complete x ys m h)
  ]

  -- A filter keeps the elements that pass its test.
  pub member-filter_iff :
      (x : A) (xs : List A) → Member x (filter p xs) ↔ (Member x xs × (p x ≡ true))
  member-filter_iff x xs = (filter_sound x xs, λ (m, h). filter_complete x xs m h)

module _ {ℓ} {A : Type ℓ} where
  pub member_cases : (a x : A) (xs : List A) → Member a (x ∷ xs) → (x ≡ a) ⊎ Member a xs
  member_cases a x xs here = inl refl
  member_cases a x xs (there m) = inr m

  pub index_of : (a : A) (xs : List A) → Member a xs → (j : ℕ) × (get_elem? xs j ≡ some a)
  index_of a xs here = (0, refl)
  index_of a xs (there {xs = ys} m) = let (j, e) = index_of a ys m in (suc j, e)

  -- An element at an index shows that the list goes so far.
  pub length-above : (j : ℕ) (a : A) (xs : List A) → get_elem? xs j ≡ some a → j < length xs
  length-above j a [] e = cc
  length-above zero a (x ∷ xs) e = omega arith
  length-above (suc j) a (x ∷ xs) e = omega (arith, length-above j a xs e)

  pub get_elem?-map {κ} :
      {B : Type κ} (f : A → B) (xs : List A) (j : ℕ) (a : A)
      → get_elem? xs j ≡ some a
      → get_elem? (map f xs) j ≡ some (f a)
  get_elem?-map f [] j a e = absurd (ground arith)
  get_elem?-map f (x ∷ xs) zero a e = let same : x ≡ a = ground arith in ap (λ y. some (f y)) same
  get_elem?-map f (x ∷ xs) (suc j) a e = get_elem?-map f xs j a e
