-- ===== src/Transaction/Cts/Links.antt =====
-- Which parts of a message are links.
use dymension_rollapp_block.Common.{zero, ◌≡◌, ◌≢◌, refl, ap, true, false, List, [], ◌∷◌, map}
use dymension_rollapp_block.Common.Text.{Str}
use dymension_rollapp_block.Transaction.Cts.{
  Part, plain_text, link, Pieces, last, piece, pieces_from, splitted, convert_from, convert,
  translate_cts,
}

-- The texts as they are, and the addresses as links.
abbrev pub meant : Pieces → List Part
meant (last s) = plain_text s ∷ []
meant (piece before address rest) = plain_text before ∷ link address ∷ meant rest

abbrev pub swap : Part → Part
swap (plain_text s) = link s
swap (link s) = plain_text s

from_address : (p : Pieces) → convert_from true (splitted p) ≡ meant p
unfolding convert_from
from_address (last s) = refl
from_address (piece before address rest) =
    ap (λ ps. plain_text before ∷ link address ∷ ps) (from_address rest)

from_text : (p : Pieces) → convert_from false (splitted p) ≡ map swap (meant p)
unfolding convert_from
from_text (last s) = refl
from_text (piece before address rest) =
    ap (λ ps. link before ∷ plain_text address ∷ ps) (from_text rest)

-- A text that begins with an address is shown as it is meant: the addresses are links, and the texts
-- between them are not. A text that begins otherwise, and has an address, is shown the other way
-- round: the texts are links, and the addresses are not.
pub links_of_cts :
    (ctm before address : Str) (rest : Pieces)
    → pieces_from zero [] ctm ≡ piece before address rest
    → (before ≡ [] → translate_cts ctm ≡ link address ∷ meant rest)
      × (before ≢ [] → translate_cts ctm ≡ map swap (meant (piece before address rest)))
unfolding translate_cts convert convert_from
links_of_cts ctm [] address rest e =
    ((λ h. rw e (ap (λ ps. link address ∷ ps) (from_address rest))), λ h. absurd (h refl))
links_of_cts ctm (c ∷ before) address rest e =
    ((λ h. cc), λ h. rw e (ap (λ ps. link (c ∷ before) ∷ plain_text address ∷ ps) (from_text rest)))
