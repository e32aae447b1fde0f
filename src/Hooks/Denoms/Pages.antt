-- ===== src/Hooks/Denoms/Pages.antt =====
-- The loop over the pages ends at the first short page, with the records of all pages.
use dymension_rollapp_block.Common.{
  ℕ, suc, ◌+◌, ◌≤◌, ◌<◌, ◌≡◌, refl, Bool, false, none, some, List, [], ◌∷◌, ◌++◌, length, arith,
}
use dymension_rollapp_block.Common.Dict.{Dict, assign, set}
use dymension_rollapp_block.Store.State.{DenomMetadata, RpcService}
use dymension_rollapp_block.Store.Actions.{update_denoms_metadata}
use dymension_rollapp_block.Hooks.Denoms.{Page, page_of, fetched, fetch_pages, use_denoms_metadata}

-- The server's pages from a number on: the given ones, all full, then a short last one.
abbrev pub Serves : (ℕ → Page) → ℕ → List (Dict DenomMetadata) → Dict DenomMetadata → Type 0
Serves server n [] last = (server n ≡ page_of last) × (length last < 20)
Serves server n (page ∷ pages) last =
    (server n ≡ page_of page) × (20 ≤ length page) × Serves server (n + 1) pages last

abbrev pub concat : List (Dict DenomMetadata) → Dict DenomMetadata → Dict DenomMetadata
concat [] last = last
concat (page ∷ pages) last = page ++ concat pages last

pub assign-append {ℓ} : {V : Type ℓ} (m n o : Dict V) → assign m (n ++ o) ≡ assign (assign m n) o
unfolding assign
assign-append m [] o = refl
assign-append m ((k, v) ∷ n) o = assign-append (set m k v) n o

fetch_pages_ends :
    (server : ℕ → Page) (pages : List (Dict DenomMetadata)) (last : Dict DenomMetadata) (n : ℕ)
    (before : Dict DenomMetadata)
    → Serves server n pages last
    → fetch_pages server (suc (length pages)) n before
      ≡ some (fetched (assign before (concat pages last)))
unfolding fetch_pages
fetch_pages_ends server [] last n before (e, short) = rw (e, fetch_pages) (ground arith)
fetch_pages_ends server (page ∷ pages) last n before (e, full, more) =
    rw (e, fetch_pages, assign-append)
      (ground (arith, fetch_pages_ends server pages last (n + 1) (assign before page) more))

-- Where the server has full pages up to a short one, as many rounds as it has pages are enough:
-- the effect dispatches one object with the records of all pages in order, and stops loading.
pub denoms_metadata_complete :
    (should_throw_error : Bool) (svc : RpcService) (server : ℕ → Page)
    (pages : List (Dict DenomMetadata)) (last : Dict DenomMetadata)
    → Serves server 1 pages last
    → use_denoms_metadata should_throw_error false (some svc) server (suc (length pages))
      ≡ some (record {
        dispatched = some (update_denoms_metadata (assign [] (concat pages last)));
        thrown = none;
        loading = false;
      })
unfolding use_denoms_metadata
denoms_metadata_complete should_throw_error svc server pages last h =
    rw (fetch_pages_ends server pages last 1 [] h, use_denoms_metadata)
