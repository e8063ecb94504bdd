-- ===== src/Prelude/Dict.antt =====
-- A Python `dict` with texts as keys: the newest value of a key stands first.
use mathlib.Core.Path.{◌≡◌}
use mathlib.Core.Bool.{Bool, not}
use mathlib.Core.List.{List, [], ◌∷◌}
use mathlib.Core.Option.{Option, none, some}
use native.Mathlib.Omega.{arith}
use tg_bale_bridge.Prelude.Tests.{if◌then◌else◌}
use tg_bale_bridge.Prelude.Lists.{select}
use tg_bale_bridge.Prelude.Texts.{Text, text_eq, text_eq_iff}

abbrev pub Dict : Type 0 → Type 0
Dict V = List (Text × V)

module _ {V : Type 0} where
  -- `d.get(key)`
  unfoldable pub get : Text → Dict V → Option V
  get k [] = none
  get k ((j, v) ∷ d) = let rest = get k d in if text_eq j k then some v else rest

  -- `d.pop(key, None)`
  pub pop : Text → Dict V → Dict V
  pop k d = select (λ (e : Text × V). not (text_eq e.0 k)) d

  -- `d[key] = v`
  unfoldable pub assign : Text → V → Dict V → Dict V
  unfolding pop
  assign k v d = (k, v) ∷ pop k d

  -- The entries that pass a test stay.
  pub keep : (V → Bool) → Dict V → Dict V
  keep p d = select (λ (e : Text × V). p e.1) d

  pub get-pop :
      (k j : Text) (d : Dict V) → get j (pop k d) ≡ (if text_eq k j then none else get j d)
  unfolding get pop
  get-pop k j [] = ground arith
  get-pop k j ((i, v) ∷ d) =
      ground (arith, get-pop k j d, text_eq_iff i k, text_eq_iff i j, text_eq_iff k j)

  pub get-assign :
      (k j : Text) (v : V) (d : Dict V)
      → get j (assign k v d) ≡ (if text_eq k j then some v else get j d)
  unfolding get assign
  get-assign k j v d = ground (arith, get-pop k j d)
