-- ===== src/Layout/Trail.antt =====
-- The trail above the page of one block, transaction, address or proposal.
use dymension_rollapp_block.Common.{
  ◌≡◌, ◌≢◌, refl, ap, ◌∙◌, sym, false, not, some, [], ◌∷◌, ◌++◌, filter, ◌==◌, append-nil,
  append_assoc, arith,
}
use dymension_rollapp_block.Common.Text.{Str, text, ◌===◌, split, split_from}
use dymension_rollapp_block.Common.Dict.{get}
use dymension_rollapp_block.Pathname.{get_new_path_by_rollapp}
use dymension_rollapp_block.Pathname.Segments.{NoSlash, rollapp_path_kept}
use dymension_rollapp_block.Pathname.Menu.{split_behind}
use dymension_rollapp_block.Layout.Breadcrumb.{
  crumb_link, crumb_text, breadcrumb_name, last_text, crumbs_of, page_breadcrumb,
}

split_last : (s cur : Str) → NoSlash s → split_from b'/' cur s ≡ (cur ++ s) ∷ []
unfolding split_from
split_last [] cur h = ap (λ p. p ∷ []) (sym (append-nil cur))
split_last (c ∷ s) cur (no_slash, h) =
    let other : (c == b'/') ≡ false = ground arith in
    rw other (split_last s (cur ++ c ∷ []) h ∙ ap (λ p. p ∷ []) (append_assoc cur (c ∷ []) s))

nonempty : (s : Str) → s ≢ [] → (s === []) ≡ false
unfolding ◌===◌
nonempty [] h = absurd (h refl)
nonempty (c ∷ s) h = refl

pieces :
    (seg page id : Str)
    → NoSlash seg
    → NoSlash page
    → NoSlash id
    → split (b'/' ∷ (seg ++ b'/' ∷ (page ++ b'/' ∷ id))) b'/' ≡ [] ∷ seg ∷ page ∷ id ∷ []
unfolding split split_from
pieces seg page id h k l =
    ap (λ ps. [] ∷ ps)
      (split_behind seg (page ++ b'/' ∷ id) [] h
        ∙ ap (λ ps. seg ∷ ps)
            (split_behind page id [] k ∙ ap (λ ps. page ∷ ps) (split_last id [] l)))

kept_pieces :
    (seg page id : Str)
    → seg ≢ []
    → page ≢ []
    → id ≢ []
    → filter (λ s. not (s === [])) ([] ∷ seg ∷ page ∷ id ∷ []) ≡ seg ∷ page ∷ id ∷ []
unfolding ◌===◌
kept_pieces seg page id h k l = rw (nonempty seg h, nonempty page k, nonempty id l) refl

trail_of_pieces :
    (pathname first page id home to : Str)
    → get_new_path_by_rollapp pathname (text "/") ≡ home
    → get_new_path_by_rollapp pathname (b'/' ∷ page) ≡ to
    → filter (λ s. not (s === [])) (split pathname b'/') ≡ first ∷ page ∷ id ∷ []
    → page_breadcrumb pathname
      ≡ crumb_link home (some (text "Home"))
        ∷ crumb_link to (get breadcrumb_name (b'/' ∷ page))
        ∷ crumb_text (last_text (get breadcrumb_name (b'/' ∷ id)) id)
        ∷ []
unfolding page_breadcrumb crumbs_of
trail_of_pieces pathname first page id home to h t e = rw (e, h, t) refl

-- Above a page of a RollApp whose address has a page's name and one more piece, as those of a
-- block, a transaction, an address and a proposal, the trail has a link to the RollApp's first page,
-- a link to the name's address without that piece, and the piece.
pub trail_of_page :
    (seg page id : Str)
    → seg ≢ []
    → page ≢ []
    → id ≢ []
    → NoSlash seg
    → NoSlash page
    → NoSlash id
    → page_breadcrumb (b'/' ∷ (seg ++ b'/' ∷ (page ++ b'/' ∷ id)))
      ≡ crumb_link ((b'/' ∷ seg) ++ text "/") (some (text "Home"))
        ∷ crumb_link ((b'/' ∷ seg) ++ b'/' ∷ page) (get breadcrumb_name (b'/' ∷ page))
        ∷ crumb_text (last_text (get breadcrumb_name (b'/' ∷ id)) id)
        ∷ []
trail_of_page seg page id sn pn idn h k l =
    let rest = b'/' ∷ (page ++ b'/' ∷ id) in
    let (_, home, _) = rollapp_path_kept seg rest (text "/") sn h refl refl in
    let (_, to, _) = rollapp_path_kept seg rest (b'/' ∷ page) sn h refl refl in
    trail_of_pieces (b'/' ∷ seg ++ rest) seg page id _ _ home to (
      ap (filter (λ s. not (s === []))) (pieces seg page id h k l)
      ∙ kept_pieces seg page id sn pn idn)
