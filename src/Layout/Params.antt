-- ===== src/Layout/Params.antt =====
-- The page of a module's parameters, web-app/src/components/client/params/ParamsPage.tsx. `stringify`
-- stands for `JSON.stringify` with two spaces.
use dymension_rollapp_block.Common.{Bool, Option, none, some, List, ◌∷◌, ◌++◌, any, if◌then◌else◌}
use dymension_rollapp_block.Common.Text.{Str, text, ◌===◌}
use dymension_rollapp_block.Hooks.Queries.{modules}
use dymension_rollapp_block.Pathname.{get_new_path_by_rollapp}

-- The text is none where progress is shown.
pub record ParamsView : Type 0 where
  pub selected : Str
  pub options : List Str
  pub shown : Option Str

module _ {A : Type 0} (stringify : A → Str) where
  -- `none` is `notFound()`.
  unfoldable pub params_page :
      (module_name : Str) (module_params : A) (loading : Bool) → Option ParamsView
  unfolding modules ◌===◌
  params_page module_name module_params loading =
      if any (λ m. m === module_name) modules
      then some (record {
        selected = module_name;
        options = modules;
        shown = if loading then none else some (stringify module_params);
      })
      else none

-- Where the choice of another module leads.
unfoldable pub choose_module : (pathname value : Str) → Str
unfolding get_new_path_by_rollapp
choose_module pathname value = get_new_path_by_rollapp pathname (text "/params") ++ b'/' ∷ value
