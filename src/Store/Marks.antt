-- ===== src/Store/Marks.antt =====
-- What the reordering of the RollApps does to the shared objects: it sets their favorite marks from
-- the local storage, and changes nothing else.
use dymension_rollapp_block.Common.{
  ◌≡◌, refl, sym, ap, ◌∙◌, Bool, List, [], ◌∷◌, Member, here, there, arith,
}
use dymension_rollapp_block.Common.Dict.{Dict}
use dymension_rollapp_block.Rollapp.{ChainInfo, RollappInfo}
use dymension_rollapp_block.Store.State.{Ref, Heap}
use dymension_rollapp_block.Store.Actions.{mark_favorites, is_marked, update}

module _ (favorites : Dict Bool) (q : Ref) where
  abbrev marked : Heap → Ref → RollappInfo
  marked heap r = record (heap r) { is_favorite = is_marked favorites (heap r).chain_id }

  step-chain_info :
      (heap : Heap) (r : Ref) → (update heap r (marked heap r) q).chain_info ≡ (heap q).chain_info
  step-chain_info heap r = ground arith

  step-is_marked :
      (heap : Heap) (r : Ref)
      → is_marked favorites (update heap r (marked heap r) q).chain_id
        ≡ is_marked favorites (heap q).chain_id
  step-is_marked heap r =
      ap (λ (c : ChainInfo). is_marked favorites c.chain_id) (step-chain_info heap r)

  step_self :
      (heap : Heap)
      → (update heap q (marked heap q) q).is_favorite ≡ is_marked favorites (heap q).chain_id
  step_self heap = ground arith

  step_other :
      (heap : Heap) (r : Ref)
      → (heap q).is_favorite ≡ is_marked favorites (heap q).chain_id
      → (update heap r (marked heap r) q).is_favorite ≡ is_marked favorites (heap q).chain_id
  step_other heap r h = ground arith

  pub mark_favorites-chain_info :
      (rs : List Ref) (heap : Heap)
      → (mark_favorites favorites rs heap q).chain_info ≡ (heap q).chain_info
  unfolding mark_favorites
  mark_favorites-chain_info [] heap = refl
  mark_favorites-chain_info (r ∷ rs) heap =
      mark_favorites-chain_info rs (update heap r (marked heap r)) ∙ step-chain_info heap r

  pub mark_favorites-path :
      (rs : List Ref) (heap : Heap) → (mark_favorites favorites rs heap q).path ≡ (heap q).path
  unfolding mark_favorites
  mark_favorites-path [] heap = refl
  mark_favorites-path (r ∷ rs) heap =
      mark_favorites-path rs (update heap r (marked heap r)) ∙ ground arith

  -- A mark that is right stays right.
  stays_marked :
      (rs : List Ref) (heap : Heap)
      → (heap q).is_favorite ≡ is_marked favorites (heap q).chain_id
      → (mark_favorites favorites rs heap q).is_favorite ≡ is_marked favorites (heap q).chain_id
  unfolding mark_favorites
  stays_marked [] heap h = h
  stays_marked (r ∷ rs) heap h =
      stays_marked rs (update heap r (marked heap r))
        (step_other heap r h ∙ sym (step-is_marked heap r))
      ∙ step-is_marked heap r

  pub mark_favorites_member :
      (rs : List Ref) (heap : Heap)
      → Member q rs
      → (mark_favorites favorites rs heap q).is_favorite ≡ is_marked favorites (heap q).chain_id
  unfolding mark_favorites
  mark_favorites_member rs heap (here {xs = ss}) =
      stays_marked ss (update heap q (marked heap q)) (step_self heap ∙ sym (step-is_marked heap q))
      ∙ step-is_marked heap q
  mark_favorites_member rs heap (there {y = r} {xs = ss} m) =
      mark_favorites_member ss (update heap r (marked heap r)) m ∙ step-is_marked heap r
