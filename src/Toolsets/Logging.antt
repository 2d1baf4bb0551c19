-- ===== src/Toolsets/Logging.antt =====
-- `filter_out_default_logging_toolset`, holmes/core/tools_utils/toolset_utils.py. The status of a
-- toolset is an enumeration of holmes/core/tools.py.
use mathlib.Core.List.{append-nil}
use canis.Prelude.{
  Bool, true, false, not, ◌&&◌, ◌≡◌, refl, ◌⊎◌, inl, inr, List, [], ◌∷◌, ◌++◌, if◌then◌else◌, arith,
  Text, codes, text_eq, text_lt, Bool-cases, keep_if, All, Any,
}

pub data ToolsetStatusEnum : Type 0 where
  enabled : ToolsetStatusEnum
  disabled : ToolsetStatusEnum
  failed : ToolsetStatusEnum

abbrev pub is_enabled : ToolsetStatusEnum → Bool
is_enabled enabled = true
is_enabled disabled = false
is_enabled failed = false

-- `is_pod_logging` is `issubclass(toolset_type, BasePodLoggingToolset)`; `A` is all else that a
-- toolset holds.
pub record Toolset (A : Type 0) : Type 0 where
  pub name : Text
  pub status : ToolsetStatusEnum
  pub is_pod_logging : Bool
  pub rest : A

text_lt_between : (s t u : Text) → text_lt s u ≡ true → text_lt s t ≡ false → text_lt t u ≡ true
unfolding text_lt
text_lt_between s t [] h n = absurd (ground arith)
text_lt_between [] [] (c ∷ u) h n = refl
text_lt_between [] (b ∷ t) (c ∷ u) h n = absurd (ground arith)
text_lt_between (a ∷ s) [] (c ∷ u) h n = refl
text_lt_between (a ∷ s) (b ∷ t) (c ∷ u) h n = ground (arith, text_lt_between s t u)

text_lt_irreflexive : (s : Text) → text_lt s s ≡ false
unfolding text_lt
text_lt_irreflexive [] = refl
text_lt_irreflexive (a ∷ s) = ground (arith, text_lt_irreflexive s)

text_lt_asymmetric : (s t : Text) → text_lt s t ≡ true → text_lt t s ≡ false
unfolding text_lt
text_lt_asymmetric s [] h = absurd (ground arith)
text_lt_asymmetric [] (b ∷ t) h = refl
text_lt_asymmetric (a ∷ s) (b ∷ t) h = ground (arith, text_lt_asymmetric s t)

module _ {A : Type 0} where
  abbrev pub is_logging : Toolset A → Bool
  is_logging t = t.is_pod_logging && is_enabled t.status

  abbrev pub is_candidate : Toolset A → Bool
  is_candidate t = not (text_eq t.name (codes "kubernetes/logs"))

  -- `list.sort(key=lambda ts: ts.name)`, which is stable
  unfoldable pub insert_by_name : Toolset A → List (Toolset A) → List (Toolset A)
  insert_by_name t [] = t ∷ []
  insert_by_name t (u ∷ us) =
      let later = insert_by_name t us in if text_lt u.name t.name then u ∷ later else t ∷ u ∷ us

  unfoldable pub sort_by_name : List (Toolset A) → List (Toolset A)
  unfolding insert_by_name
  sort_by_name [] = []
  sort_by_name (t ∷ ts) = insert_by_name t (sort_by_name ts)

  -- the first of a list, as a list
  abbrev pub first : List (Toolset A) → List (Toolset A)
  first [] = []
  first (t ∷ ts) = t ∷ []

  -- The first candidate in order, or the given toolset if there is none.
  unfoldable pub choose : Toolset A → List (Toolset A) → List (Toolset A)
  unfolding sort_by_name
  choose t [] = t ∷ []
  choose t (c ∷ cs) = first (sort_by_name (c ∷ cs))

  unfoldable pub pick : List (Toolset A) → List (Toolset A)
  unfolding choose
  pick [] = []
  pick (t ∷ []) = t ∷ []
  pick (t ∷ u ∷ ts) = choose t (keep_if is_candidate (t ∷ u ∷ ts))

  unfoldable pub filter_out_default_logging_toolset : List (Toolset A) → List (Toolset A)
  unfolding pick
  filter_out_default_logging_toolset toolsets =
      keep_if (λ t. not (is_logging t)) toolsets ++ pick (keep_if is_logging toolsets)

  -- No toolset of the list has a name before the chosen one's.
  abbrev pub IsFirstIn : Toolset A → List (Toolset A) → Type 0
  IsFirstIn c ts = All (λ t. text_lt t.name c.name ≡ false) ts

  IsFirstIn-before :
      (c t : Toolset A) (ts : List (Toolset A))
      → text_lt c.name t.name ≡ false
      → IsFirstIn c ts
      → IsFirstIn t ts
  IsFirstIn-before c t [] h all_after = tt
  IsFirstIn-before c t (u ∷ ts) h all_after =
      (ground (arith, text_lt_between u.name c.name t.name), IsFirstIn-before c t ts h all_after.1)

  sort_by_name-IsFirstIn :
      (t : Toolset A) (ts : List (Toolset A))
      → (c : Toolset A) × (later : List (Toolset A)) × (sort_by_name (t ∷ ts) ≡ c ∷ later)
        × Any (λ u. u ≡ c) (t ∷ ts)
        × IsFirstIn c (t ∷ ts)
  unfolding sort_by_name insert_by_name
  sort_by_name-IsFirstIn t [] = (t, [], refl, inl refl, (text_lt_irreflexive t.name, tt))
  sort_by_name-IsFirstIn t (u ∷ us) =
      let (c, later, same, found, after) = sort_by_name-IsFirstIn u us in
      elim (Bool-cases (text_lt c.name t.name)) [
        | inl e ↦ (
          c,
          insert_by_name t later,
          ground arith,
          inr found,
          (text_lt_asymmetric c.name t.name e, after),
        )
        | inr e ↦ (
          t,
          c ∷ later,
          ground arith,
          inl refl,
          (text_lt_irreflexive t.name, IsFirstIn-before c t (u ∷ us) e after),
        )
      ]

  keep_if-Any :
      (p : Toolset A → Bool) (c : Toolset A) (ts : List (Toolset A))
      → Any (λ u. u ≡ c) (keep_if p ts)
      → Any (λ u. u ≡ c) ts × (p c ≡ true)
  keep_if-Any p c [] h = absurd h
  keep_if-Any p c (t ∷ ts) h = elim (Bool-cases (p t)) [
    | inl e ↦ elim (rw e at h) [
      | inl same ↦ (inl same, ground arith)
      | inr found ↦ let (there, ok) = keep_if-Any p c ts found in (inr there, ok)
    ]
    | inr e ↦ let (there, ok) = keep_if-Any p c ts (rw e at h) in (inr there, ok)
  ]

  -- `chosen` is the one toolset that stands for the logging toolsets of `ts`.
  abbrev pub IsChosen : List (Toolset A) → Toolset A → Type 0
  IsChosen ts c =
      Any (λ u. u ≡ c) ts
      × (is_candidate c ≡ false → keep_if is_candidate ts ≡ [])
      × IsFirstIn c (keep_if is_candidate ts)

  choose-IsChosen :
      (t : Toolset A) (ts kept : List (Toolset A))
      → keep_if is_candidate ts ≡ kept
      → Any (λ u. u ≡ t) ts
      → (c : Toolset A) × (choose t kept ≡ c ∷ []) × IsChosen ts c
  unfolding choose
  choose-IsChosen t ts [] e found = (t, refl, (found, λ other. e, rw e tt))
  choose-IsChosen t ts (c ∷ cs) e found =
      let (d, later, same, chosen, after) = sort_by_name-IsFirstIn c cs in
      let (there, ok) = keep_if-Any is_candidate d ts (rw e chosen) in
      (d, rw same refl, (there, λ other. absurd (ground arith), rw e after))

  pick-IsChosen :
      (t : Toolset A) (ts : List (Toolset A))
      → (c : Toolset A) × (pick (t ∷ ts) ≡ c ∷ []) × IsChosen (t ∷ ts) c
  unfolding pick
  pick-IsChosen t [] = elim (Bool-cases (is_candidate t)) [
    | inl e ↦
        (t, refl, (inl refl, λ other. absurd (ground arith), rw e (text_lt_irreflexive t.name, tt)))
    | inr e ↦ (t, refl, (inl refl, λ other. rw e refl, rw e tt))
  ]
  pick-IsChosen t (u ∷ ts) =
      choose-IsChosen t (t ∷ u ∷ ts) (keep_if is_candidate (t ∷ u ∷ ts)) refl (inl refl)

  list-cases :
      (ts : List (Toolset A))
      → (ts ≡ []) ⊎ ((t : Toolset A) × (us : List (Toolset A)) × (ts ≡ t ∷ us))
  list-cases [] = inl refl
  list-cases (t ∷ ts) = inr (t, ts, refl)

  -- All toolsets but the enabled logging ones are kept in order. If there are logging ones, one of
  -- them follows: no one that is not named kubernetes/logs has a name before its name, and it is
  -- named kubernetes/logs itself only if all of them are.
  pub filter_out_default_logging_toolset_lem :
      (toolsets : List (Toolset A))
      → let out = filter_out_default_logging_toolset toolsets in
        let others = keep_if (λ t. not (is_logging t)) toolsets in
        let logging = keep_if is_logging toolsets in
        ((logging ≡ []) × (out ≡ others))
        ⊎ ((c : Toolset A) × (out ≡ others ++ c ∷ []) × IsChosen logging c)
  unfolding filter_out_default_logging_toolset
  filter_out_default_logging_toolset_lem toolsets =
      elim (list-cases (keep_if is_logging toolsets)) [
        | inl e ↦ inl (e, rw e (append-nil (keep_if (λ t. not (is_logging t)) toolsets)))
        | inr (t, ts, e) ↦
            let (c, same, chosen) = pick-IsChosen t ts in inr (c, rw e (rw same refl), rw e chosen)
      ]
