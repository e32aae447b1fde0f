-- ===== src/Rollapp/Lookup.antt =====
-- Finding a RollApp by its address or by its chain id.
use dymension_rollapp_block.Common.{
  ◌≡◌, ◌≢◌, ◌⊎◌, ◌↔◌, inl, inr, refl, ◌∙◌, some, List, [], ◌∷◌, All, All-member, Member, here,
  there, HasDistinct, arith, Bool-cases,
}
use dymension_rollapp_block.Common.Text.{Str, ◌===◌, ===_iff, ===_self, eq_of_===}
use dymension_rollapp_block.Common.Dict.{Dict, get, set, get-set}
use dymension_rollapp_block.Common.Locale.{Locale}
use dymension_rollapp_block.Rollapp.{
  ChainInfo, RollappInfo, get_rollapp_path_by_name, normalize_rollapp_info, normalize_rollapps_info,
  get_rollapp_info_by_path, add_rollapp_infos, rollapp_infos_to_object,
}

get_empty : (k : Str) (i : RollappInfo) → get [] k ≢ some i
unfolding get
get_empty k i e = cc

module _ (k : Str) where
  add_sound :
      (obj : Dict RollappInfo) (xs : List RollappInfo) (i : RollappInfo)
      → get (add_rollapp_infos obj xs) k ≡ some i
      → (Member i xs × (i.chain_id ≡ k)) ⊎ (get obj k ≡ some i)
  unfolding add_rollapp_infos
  add_sound obj [] i e = inr e
  add_sound obj (x ∷ xs) i e = elim (add_sound (set obj x.chain_id x) xs i e) [
    | inl (m, h) ↦ inl (there m, h)
    | inr before ↦ elim (Bool-cases (x.chain_id === k)) [
      | inl same ↦
          let this : x ≡ i = ground (arith, get-set obj x.chain_id k x) in
          rw (← this) (inl (here, eq_of_=== x.chain_id k same))
      | inr other ↦ inr (ground (arith, get-set obj x.chain_id k x))
    ]
  ]

  add_others :
      (obj : Dict RollappInfo) (xs : List RollappInfo)
      → All (λ y. y.chain_id ≢ k) xs
      → get (add_rollapp_infos obj xs) k ≡ get obj k
  unfolding add_rollapp_infos
  add_others obj [] h = refl
  add_others obj (x ∷ xs) h = ground (
    arith,
    add_others (set obj x.chain_id x) xs h.1,
    get-set obj x.chain_id k x,
    ===_iff x.chain_id k,
  )

add_complete :
    (i : RollappInfo) (obj : Dict RollappInfo) (xs : List RollappInfo)
    → HasDistinct (λ x. x.chain_id) xs
    → Member i xs
    → get (add_rollapp_infos obj xs) i.chain_id ≡ some i
unfolding add_rollapp_infos
add_complete i obj xs d (here {xs = ys}) =
    add_others i.chain_id (set obj i.chain_id i) ys d.0 ∙ rw (get-set, ===_self)
add_complete i obj xs d (there {y = x} {xs = ys} m) = add_complete i (set obj x.chain_id x) ys d.1 m

-- Where the chain ids are distinct, the object made of the RollApps has exactly these, each under
-- its chain id.
pub object_lookup_iff :
    (xs : List RollappInfo) (k : Str) (i : RollappInfo)
    → HasDistinct (λ x. x.chain_id) xs
    → (get (rollapp_infos_to_object xs) k ≡ some i) ↔ (Member i xs × (i.chain_id ≡ k))
unfolding rollapp_infos_to_object
object_lookup_iff xs k i d = (
  λ e. elim (add_sound k [] xs i e) [
    | inl found ↦ found
    | inr before ↦ absurd (get_empty k i before)
  ],
  λ (m, e). rw (← e) (add_complete i [] xs d m),
)

module _ (locale : Locale) where
  path_complete :
      (c : ChainInfo) (chain_infos : List ChainInfo)
      → HasDistinct (λ d. get_rollapp_path_by_name locale d.name) chain_infos
      → Member c chain_infos
      → get_rollapp_info_by_path locale chain_infos (get_rollapp_path_by_name locale c.name)
        ≡ some (normalize_rollapp_info locale c)
  unfolding get_rollapp_info_by_path normalize_rollapps_info normalize_rollapp_info
  path_complete c cs distinct here = rw ===_self
  path_complete c cs distinct (there {y = d} {xs = ds} m) =
      let ne =
        All-member
          (λ e. get_rollapp_path_by_name locale e.name ≢ get_rollapp_path_by_name locale d.name) c
          ds distinct.0 m in
      ground (
        arith,
        ne,
        ===_iff (get_rollapp_path_by_name locale d.name) (get_rollapp_path_by_name locale c.name),
        path_complete c ds distinct.1 m,
      )

  path_sound :
      (path : Str) (chain_infos : List ChainInfo) (c : ChainInfo)
      → get_rollapp_info_by_path locale chain_infos path ≡ some (normalize_rollapp_info locale c)
      → Member c chain_infos × (get_rollapp_path_by_name locale c.name ≡ path)
  unfolding get_rollapp_info_by_path normalize_rollapps_info normalize_rollapp_info
  path_sound path [] c e = cc
  path_sound path (d ∷ ds) c e =
      elim (Bool-cases (get_rollapp_path_by_name locale d.name === path)) [
        | inl same ↦ let this : d ≡ c = ground arith in rw (← this) (here, eq_of_=== _ _ same)
        | inr other ↦ let (m, h) = path_sound path ds c (ground arith) in (there m, h)
      ]

  -- Where no two RollApps share an address, a page's address finds exactly the RollApp whose name
  -- gives that address, not yet marked as a favorite.
  pub path_lookup_iff :
      (chain_infos : List ChainInfo) (path : Str) (c : ChainInfo)
      → HasDistinct (λ d. get_rollapp_path_by_name locale d.name) chain_infos
      → (get_rollapp_info_by_path locale chain_infos path ≡ some (normalize_rollapp_info locale c))
        ↔ (Member c chain_infos × (get_rollapp_path_by_name locale c.name ≡ path))
  path_lookup_iff chain_infos path c d =
      (path_sound path chain_infos c, λ (m, e). rw (← e) (path_complete c chain_infos d m))
