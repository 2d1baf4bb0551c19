-- ===== src/Prelude/Dicts.antt =====
-- Python's `dict` with texts for keys: an association list in order of insertion.
use mathlib.Core.Path.{◌≡◌, refl}
use mathlib.Core.Option.{Option, none, some}
use mathlib.Core.List.{List, [], ◌∷◌}
use native.Mathlib.Omega.{arith}
use canis.Prelude.Tests.{if◌then◌else◌}
use canis.Prelude.Texts.{Text, text_eq, text_eq_iff}

abbrev pub Dict {ℓ} : Type ℓ → Type ℓ
Dict A = List (Text × A)

module _ {ℓ} {A : Type ℓ} where
  -- `d.get(k)`
  unfoldable pub dict_get : Text → Dict A → Option A
  dict_get k [] = none
  dict_get k ((j, v) ∷ d) = if text_eq j k then some v else dict_get k d

  -- `d[k] = v`
  unfoldable pub dict_set : Text → A → Dict A → Dict A
  dict_set k v [] = (k, v) ∷ []
  dict_set k v ((j, u) ∷ d) =
      let rest = dict_set k v d in if text_eq j k then (j, v) ∷ d else (j, u) ∷ rest

  -- `d.pop(k, None)`
  unfoldable pub dict_pop : Text → Dict A → Dict A
  dict_pop k [] = []
  dict_pop k ((j, u) ∷ d) = let rest = dict_pop k d in if text_eq j k then rest else (j, u) ∷ rest

  pub dict_get-dict_set :
      (k j : Text) (v : A) (d : Dict A)
      → dict_get k (dict_set j v d) ≡ (if text_eq j k then some v else dict_get k d)
  unfolding dict_get dict_set
  dict_get-dict_set k j v [] = refl
  dict_get-dict_set k j v ((i, u) ∷ d) =
      ground (arith, dict_get-dict_set k j v d, text_eq_iff i j, text_eq_iff i k, text_eq_iff j k)

  pub dict_get-dict_pop :
      (k j : Text) (d : Dict A)
      → dict_get k (dict_pop j d) ≡ (if text_eq j k then none else dict_get k d)
  unfolding dict_get dict_pop
  dict_get-dict_pop k j [] = ground arith
  dict_get-dict_pop k j ((i, u) ∷ d) =
      ground (arith, dict_get-dict_pop k j d, text_eq_iff i j, text_eq_iff i k, text_eq_iff j k)
