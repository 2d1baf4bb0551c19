-- ===== src/Logs/Filter.antt =====
-- `filter_logs` (holmes/plugins/toolsets/kubernetes_logs.py).
use canis.Prelude.{
  ℕ, suc, zero, ◌+◌, ◌-◌, ltb, Bool, true, false, not, ◌&&◌, ◌||◌, ◌≡◌, refl, Option, none, some,
  List, [], ◌∷◌, ◌++◌, if◌then◌else◌, arith, Text, contains, length, drop, take, min,
  take-append-drop, length-drop, sym, ◌∙◌, keep_if, Bool-cases, inl, inr,
}
use canis.Logs.Lines.{StructuredLog}

pub record TimeFilter : Type 0 where
  pub start_ms : ℕ
  pub end_ms : ℕ

-- The parameters that the filter reads; `filter`, `exclude_filter` and `limit` may be absent.
pub record LogQuery : Type 0 where
  pub include : Option Text
  pub exclude : Option Text
  pub limit : Option ℕ
  pub time_filter : Option TimeFilter

-- `re.compile(pattern, re.IGNORECASE)` and its `search`, `none` for an `re.error`; `str.lower`.
pub record Regex : Type 0 where
  pub compile : Text → Option (Text → Bool)
  pub lower : Text → Text

pub record Filtered : Type 0 where
  pub filtered_logs : List StructuredLog
  pub filtered_count_before_limit : ℕ
  pub used_substring_fallback : Bool
  pub exclude_used_substring_fallback : Bool
  pub removed_by_include_filter : ℕ
  pub removed_by_exclude_filter : ℕ

-- `log.timestamp_ms or 0`
abbrev pub sort_key : StructuredLog → ℕ
sort_key l = elim l.timestamp_ms [ none ↦ 0 | some t ↦ t ]

-- `logs.sort(key=…)`, which is stable
unfoldable pub insert_log : StructuredLog → List StructuredLog → List StructuredLog
insert_log l [] = l ∷ []
insert_log l (k ∷ ks) =
    let later = insert_log l ks in if ltb (sort_key k) (sort_key l) then k ∷ later else l ∷ k ∷ ks

unfoldable pub sort_logs : List StructuredLog → List StructuredLog
unfolding insert_log
sort_logs [] = []
sort_logs (l ∷ ls) = insert_log l (sort_logs ls)

-- An empty filter is no filter.
abbrev pub some_text : Option Text → Option Text
some_text none = none
some_text (some []) = none
some_text (some (c ∷ s)) = some (c ∷ s)

module _ (re : Regex) (q : LogQuery) where
  -- The regex, or the substring, is found in the content.
  unfoldable pub found_in : Text → StructuredLog → Bool
  found_in pattern l = elim (re.compile pattern) [
    | some search ↦ search l.content
    | none ↦ contains (re.lower l.content) (re.lower pattern)
  ]

  abbrev pub falls_back : Option Text → Bool
  falls_back pattern = elim (some_text pattern) [
    | none ↦ false
    | some p ↦ elim (re.compile p) [ none ↦ true | some search ↦ false ]
  ]

  unfoldable pub included : StructuredLog → Bool
  unfolding found_in
  included l = elim (some_text q.include) [ none ↦ true | some p ↦ found_in p l ]

  unfoldable pub excluded : StructuredLog → Bool
  unfolding found_in
  excluded l = elim (some_text q.exclude) [ none ↦ false | some p ↦ found_in p l ]

  -- A log with no timestamp, or with timestamp 0, is never out of the window.
  unfoldable pub out_of_window : StructuredLog → Bool
  out_of_window l = elim q.time_filter [
    | none ↦ false
    | some t ↦ elim l.timestamp_ms [
      | none ↦ false
      | some zero ↦ false
      | some (suc ms) ↦ ltb (suc ms) t.start_ms || ltb t.end_ms (suc ms)
    ]
  ]

  -- The loop: the logs that are kept, and the two counts.
  unfoldable pub filter_loop : List StructuredLog → List StructuredLog × ℕ × ℕ
  unfolding included excluded out_of_window
  filter_loop [] = ([], 0, 0)
  filter_loop (l ∷ ls) =
      let (kept, by_include, by_exclude) = filter_loop ls in
      if not (included l)
      then (kept, by_include + 1, by_exclude)
      else if excluded l
      then (kept, by_include, by_exclude + 1)
      else if out_of_window l
      then (kept, by_include, by_exclude)
      else (l ∷ kept, by_include, by_exclude)

  -- `filtered_logs[-limit:]`, if there are more; no limit and limit 0 are none.
  abbrev pub apply_limit : Option ℕ → List StructuredLog → List StructuredLog
  apply_limit none ls = ls
  apply_limit (some zero) ls = ls
  apply_limit (some (suc n)) ls =
      if ltb (suc n) (length ls) then drop (length ls - suc n) ls else ls

  abbrev pub some_limit : Option ℕ → Bool
  some_limit none = false
  some_limit (some zero) = false
  some_limit (some (suc n)) = true

  unfoldable pub filter_logs : List StructuredLog → Filtered
  unfolding sort_logs filter_loop
  filter_logs logs =
      let (kept, by_include, by_exclude) = filter_loop (sort_logs logs) in
      record {
        filtered_logs = apply_limit q.limit kept;
        filtered_count_before_limit = length kept;
        used_substring_fallback = falls_back q.include;
        exclude_used_substring_fallback = falls_back q.exclude;
        removed_by_include_filter = by_include;
        removed_by_exclude_filter = by_exclude;
      }

  -- What a log must be to be kept.
  abbrev pub passes : StructuredLog → Bool
  passes l = included l && (not (excluded l) && not (out_of_window l))

  abbrev pub not_included : StructuredLog → Bool
  not_included l = not (included l)

  abbrev pub included_excluded : StructuredLog → Bool
  included_excluded l = included l && excluded l

  filter_loop-keep_if :
      (ls : List StructuredLog)
      → let (kept, by_include, by_exclude) = filter_loop ls in
        (kept ≡ keep_if passes ls)
        × (by_include ≡ length (keep_if not_included ls))
        × (by_exclude ≡ length (keep_if included_excluded ls))
  unfolding filter_loop
  filter_loop-keep_if [] = (refl, refl, refl)
  filter_loop-keep_if (l ∷ ls) =
      let (k, i, e) = filter_loop-keep_if ls in
      elim (Bool-cases (included l)) [
        | inr a ↦ (rw a (rw k refl), rw a (omega (arith, i)), rw a (rw e refl))
        | inl a ↦ elim (Bool-cases (excluded l)) [
          | inl b ↦
              (rw a (rw b (rw k refl)), rw a (rw b (rw i refl)), rw a (rw b (omega (arith, e))))
          | inr b ↦ elim (Bool-cases (out_of_window l)) [
            | inl d ↦ (
              rw a (rw b (rw d (rw k refl))),
              rw a (rw b (rw d (rw i refl))),
              rw a (rw b (rw d (rw e refl))),
            )
            | inr d ↦ (
              rw a (rw b (rw d (rw k refl))),
              rw a (rw b (rw d (rw i refl))),
              rw a (rw b (rw d (rw e refl))),
            )
          ]
        ]
      ]

  -- Every filter keeps as many logs of the sorted list as of the list.
  length-keep_if-insert_log :
      (p : StructuredLog → Bool) (l : StructuredLog) (ls : List StructuredLog)
      → length (keep_if p (insert_log l ls)) ≡ length (keep_if p (l ∷ ls))
  unfolding insert_log
  length-keep_if-insert_log p l [] = refl
  length-keep_if-insert_log p l (k ∷ ks) = ground (arith, length-keep_if-insert_log p l ks)

  pub length-keep_if-sort_logs :
      (p : StructuredLog → Bool) (ls : List StructuredLog)
      → length (keep_if p (sort_logs ls)) ≡ length (keep_if p ls)
  unfolding sort_logs
  length-keep_if-sort_logs p [] = refl
  length-keep_if-sort_logs p (l ∷ ls) =
      ground (arith, length-keep_if-insert_log p l (sort_logs ls), length-keep_if-sort_logs p ls)

  apply_limit-suffix :
      (limit : Option ℕ) (ls : List StructuredLog)
      → ((front : List StructuredLog) × (ls ≡ front ++ apply_limit limit ls))
        × ((n : ℕ) → limit ≡ some (suc n) → length (apply_limit limit ls) ≡ min (suc n) (length ls))
        × (some_limit limit ≡ false → apply_limit limit ls ≡ ls)
  apply_limit-suffix none ls = (([], refl), λ n e. cc, λ e. refl)
  apply_limit-suffix (some zero) ls = (([], refl), λ n e. ground arith, λ e. refl)
  apply_limit-suffix (some (suc n)) ls = elim (Bool-cases (ltb (suc n) (length ls))) [
    | inl more ↦ rw more (
      (take (length ls - suc n) ls, sym (take-append-drop (length ls - suc n) ls)),
      λ k e. ground (arith, length-drop (length ls - suc n) ls),
      λ e. cc,
    )
    | inr few ↦ rw few (([], refl), λ k e. ground arith, λ e. cc)
  ]

  -- The result is the end of the logs that are included, not excluded and not out of the window, in
  -- the order of their times: all of them, or as many as the limit if that is less. The counts are
  -- those of the logs that are not included, and that are included and excluded.
  pub filter_logs_lem :
      (logs : List StructuredLog)
      → let out = filter_logs logs in
        let passing = keep_if passes (sort_logs logs) in
        ((front : List StructuredLog) × (passing ≡ front ++ out.filtered_logs))
        × ((n : ℕ)
            → q.limit ≡ some (suc n)
            → length out.filtered_logs ≡ min (suc n) (length passing))
        × (some_limit q.limit ≡ false → out.filtered_logs ≡ passing)
        × (out.filtered_count_before_limit ≡ length (keep_if passes logs))
        × (out.removed_by_include_filter ≡ length (keep_if not_included logs))
        × (out.removed_by_exclude_filter ≡ length (keep_if included_excluded logs))
  unfolding filter_logs
  filter_logs_lem logs =
      let (k, i, e) = filter_loop-keep_if (sort_logs logs) in
      let (front, bound, whole) = apply_limit-suffix q.limit (keep_if passes (sort_logs logs)) in
      (
        rw k front,
        rw k bound,
        rw k whole,
        rw k (length-keep_if-sort_logs passes logs),
        i ∙ length-keep_if-sort_logs not_included logs,
        e ∙ length-keep_if-sort_logs included_excluded logs,
      )
