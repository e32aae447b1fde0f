-- ===== src/Common/Dict.antt =====
-- Objects used as dictionaries: association lists from strings, in the order of insertion. A key
-- that is set again keeps its place.
use mathlib.Core.Path.{◌≡◌, refl}
use mathlib.Core.Option.{Option, none, some}
use mathlib.Core.List.{List, [], ◌∷◌, map}
use native.Mathlib.Omega.{arith}
use dymension_rollapp_block.Common.Tests.{if◌then◌else◌}
use dymension_rollapp_block.Common.Text.{Str, ◌===◌, ===_iff}

abbrev pub Dict {ℓ} : Type ℓ → Type ℓ
Dict V = List (Str × V)

module _ {ℓ} {V : Type ℓ} where
  -- `m[k]`
  unfoldable pub get : Dict V → Str → Option V
  get [] k = none
  get ((j, v) ∷ m) k = if j === k then some v else get m k

  -- `m[k] = v`
  unfoldable pub set : Dict V → Str → V → Dict V
  set [] k v = (k, v) ∷ []
  set ((j, w) ∷ m) k v = if j === k then (j, v) ∷ m else (j, w) ∷ set m k v

  -- `Object.keys(m)`
  abbrev pub keys : Dict V → List Str
  keys m = map (λ e. e.0) m

  -- `for (const k of Object.keys(n)) m[k] = n[k]`
  unfoldable pub assign : Dict V → Dict V → Dict V
  assign m [] = m
  assign m ((k, v) ∷ n) = assign (set m k v) n

  -- After a write the key has the value, and the other keys have theirs.
  pub get-set :
      (m : Dict V) (k j : Str) (v : V) → get (set m k v) j ≡ (if k === j then some v else get m j)
  unfolding get set
  get-set [] k j v = refl
  get-set ((i, w) ∷ m) k j v =
      ground (arith, ===_iff k j, ===_iff i k, ===_iff i j, get-set m k j v)
