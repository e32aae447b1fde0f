-- ===== src/Store/Order.antt =====
-- The order of the RollApps: favorites first, then by name.
use Prim.Native.Nat.{Ordering}
use dymension_rollapp_block.Common.{◌≡◌, ◌≢◌, true, List, [], ◌∷◌, All, All-imp, arith}
use dymension_rollapp_block.Common.Sort.{IsSorted, Le}
use dymension_rollapp_block.Store.State.{Ref, Heap}
use dymension_rollapp_block.Common.Locale.{Locale}
use dymension_rollapp_block.Rollapp.{RollappInfo}
use dymension_rollapp_block.Store.Actions.{by_favorite}

module _ (locale : Locale) where
  open locale use {locale_compare, compare_total, compare_trans}

  pub by_favorite_total :
      (a b : RollappInfo)
      → by_favorite locale a b ≡ Ordering.gt
      → by_favorite locale b a ≢ Ordering.gt
  unfolding by_favorite
  by_favorite_total a b h = ground (arith, compare_total a.name b.name)

  pub by_favorite_trans :
      (a b c : RollappInfo)
      → by_favorite locale a b ≢ Ordering.gt
      → by_favorite locale b c ≢ Ordering.gt
      → by_favorite locale a c ≢ Ordering.gt
  unfolding by_favorite
  by_favorite_trans a b c h k = ground (arith, compare_trans a.name b.name c.name)

  -- A favorite comes before every other RollApp, and of two favorites, or of two others, the one comes
  -- first whose name does not come behind.
  abbrev pub Precedes : RollappInfo → RollappInfo → Type 0
  Precedes a b =
      (b.is_favorite ≡ true → a.is_favorite ≡ true)
      × (a.is_favorite ≡ b.is_favorite → locale_compare a.name b.name ≢ Ordering.gt)

  by_favorite-Precedes : (a b : RollappInfo) → by_favorite locale a b ≢ Ordering.gt → Precedes a b
  unfolding by_favorite
  by_favorite-Precedes a b h = ((λ e. ground arith), λ e. ground arith)

  -- Each RollApp of the list precedes each later one.
  abbrev pub AreFavoritesFirst : Heap → List Ref → Type 0
  AreFavoritesFirst heap [] = Unit
  AreFavoritesFirst heap (r ∷ rs) =
      All (λ q. Precedes (heap r) (heap q)) rs × AreFavoritesFirst heap rs

  pub sorted-AreFavoritesFirst :
      (heap : Heap) (rs : List Ref)
      → IsSorted (λ a b. by_favorite locale (heap a) (heap b)) rs
      → AreFavoritesFirst heap rs
  sorted-AreFavoritesFirst heap [] h = tt
  sorted-AreFavoritesFirst heap (r ∷ rs) (below, h) = (
    All-imp (Le (λ a b. by_favorite locale (heap a) (heap b)) r) (λ q. Precedes (heap r) (heap q))
        rs (λ q. by_favorite-Precedes (heap r) (heap q)) below,
    sorted-AreFavoritesFirst heap rs h,
  )
