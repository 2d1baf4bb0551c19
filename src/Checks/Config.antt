-- ===== src/Checks/Config.antt =====
-- The defaults of a configuration of checks (holmes/checks/checks.py, `load_checks_config`).
use canis.Prelude.{
  ◌≡◌, refl, ap, ◌∙◌, inl, inr, Option, none, some, List, [], ◌∷◌, map, if◌then◌else◌, is_some,
  Bool-cases, Option-cases, Text, codes, text_eq, text_eq_iff, Dict, dict_get, dict_set, dict_pop,
  dict_get-dict_set, dict_get-dict_pop,
}

-- `V` is a value of the parsed YAML.
module _ {V : Type 0} where
  -- `if key not in check_data: check_data[key] = value`
  unfoldable pub apply_defaults : Dict V → Dict V → Dict V
  apply_defaults [] check_data = check_data
  apply_defaults ((key, value) ∷ defaults) check_data =
      apply_defaults defaults
        (if is_some (dict_get key check_data) then check_data else dict_set key value check_data)

  -- The data of the checks, before they become `Check` objects.
  unfoldable pub load_checks_config : Dict V → List (Dict V) → List (Dict V)
  unfolding apply_defaults
  load_checks_config defaults checks =
      map (apply_defaults (dict_pop (codes "mode") defaults)) checks

  abbrev pub or_else : Option V → Option V → Option V
  or_else none other = other
  or_else (some v) other = some v

  apply_defaults_lem :
      (k : Text) (defaults check_data : Dict V)
      → dict_get k (apply_defaults defaults check_data)
        ≡ or_else (dict_get k check_data) (dict_get k defaults)
  unfolding apply_defaults dict_get
  apply_defaults_lem k [] d = elim (Option-cases (dict_get k d)) [
    | inl e ↦ rw e refl
    | inr (v, e) ↦ rw e refl
  ]
  apply_defaults_lem k ((key, value) ∷ defaults) d =
      let set = dict_get-dict_set k key value d in
      let kept = apply_defaults_lem k defaults d in
      let given = apply_defaults_lem k defaults (dict_set key value d) in
      elim (Bool-cases (text_eq key k)) [
        | inl f ↦
            let same = (text_eq_iff key k).0 f in
            let moved : dict_get key d ≡ dict_get k d = ap (λ (i : Text). dict_get i d) same in
            elim (Option-cases (dict_get k d)) [
              | inl e ↦ rw (moved ∙ e) (rw e (rw f (given ∙ rw set (rw f refl))))
              | inr (v, e) ↦ rw (moved ∙ e) (rw e (kept ∙ rw e refl))
            ]
        | inr f ↦ elim (Option-cases (dict_get key d)) [
          | inl e ↦ rw e (rw f (given ∙ rw set (rw f refl)))
          | inr (v, e) ↦ rw e (rw f kept)
        ]
      ]

  -- A value in the data of a check is that of the check, if it has one, and else the default; but the
  -- mode has no default.
  pub load_checks_config_lem :
      (k : Text) (defaults : Dict V) (checks : List (Dict V))
      → map (dict_get k) (load_checks_config defaults checks)
        ≡ map
            (λ check_data.
              or_else
                (dict_get k check_data)
                (if text_eq (codes "mode") k then none else dict_get k defaults))
            checks
  unfolding load_checks_config
  load_checks_config_lem k defaults [] = refl
  load_checks_config_lem k defaults (d ∷ checks) =
      let rest = load_checks_config_lem k defaults checks in
      let first =
        apply_defaults_lem k (dict_pop (codes "mode") defaults) d
        ∙ ap (or_else (dict_get k d)) (dict_get-dict_pop k (codes "mode") defaults) in
      rw first (
        ap
          (λ (l : List (Option V)).
            or_else (dict_get k d) (if text_eq (codes "mode") k then none else dict_get k defaults)
            ∷ l)
          rest)
