-- ===== src/Logs/Filtered.antt =====
-- What `filter_logs` keeps, described without its passes (holmes/plugins/toolsets/kubernetes_logs.py).
use canis.Prelude.{
  ℕ, zero, suc, ◌≤◌, ◌≡◌, ◌↔◌, refl, ◌⊎◌, inl, inr, Bool, true, false, min, Option, none, some,
  List, [], ◌∷◌, ◌++◌, arith, Text, sym, ap, ◌∙◌, contains, length, keep_if, Bool-cases,
  Option-cases,
}
use canis.Logs.Lines.{StructuredLog}
use canis.Logs.Filter.{
  TimeFilter, LogQuery, Regex, sort_logs, found_in, included, excluded, out_of_window, passes,
  some_limit, filter_logs, filter_logs_lem, length-keep_if-sort_logs,
}
use canis.Logs.Order.{IsByTime, sort_logs-IsByTime, filter_logs-IsByTime}

Filter-cases :
    {A : Type 0} (o : Option (List A))
    → (o ≡ none) ⊎ (o ≡ some []) ⊎ ((c : A) × (s : List A) × (o ≡ some (c ∷ s)))
Filter-cases none = inl refl
Filter-cases (some []) = inr (inl refl)
Filter-cases (some (c ∷ s)) = inr (inr (c, s, refl))

module _ (re : Regex) (q : LogQuery) where
  -- The pattern is found as a regular expression, or as a part of the text in either case if it is
  -- not one.
  abbrev pub IsFound : Text → StructuredLog → Type 0
  IsFound pattern l =
      ((search : Text → Bool) × (re.compile pattern ≡ some search) × (search l.content ≡ true))
      ⊎ ((re.compile pattern ≡ none) × (contains (re.lower l.content) (re.lower pattern) ≡ true))

  found_in-IsFound :
      (pattern : Text) (l : StructuredLog) → (found_in re q pattern l ≡ true) ↔ IsFound pattern l
  unfolding found_in
  found_in-IsFound pattern l = elim (Option-cases (re.compile pattern)) [
    | inl e ↦ (
      λ h. inr (e, ground arith),
      λ h. elim h [ inl (search, f, t) ↦ absurd (ground arith) | inr (f, t) ↦ ground arith ],
    )
    | inr (search, e) ↦ (
      λ h. inl (search, e, ground arith),
      λ h. elim h [ inl (other, f, t) ↦ ground arith | inr (f, t) ↦ absurd (ground arith) ],
    )
  ]

  -- No pattern, an empty one, or one that is found.
  abbrev pub IsIncluded : StructuredLog → Type 0
  IsIncluded l =
      (q.include ≡ none)
      ⊎ (q.include ≡ some [])
      ⊎ ((c : ℕ) × (s : Text) × (q.include ≡ some (c ∷ s)) × IsFound (c ∷ s) l)

  abbrev pub IsNotExcluded : StructuredLog → Type 0
  IsNotExcluded l =
      (q.exclude ≡ none)
      ⊎ (q.exclude ≡ some [])
      ⊎ ((c : ℕ) × (s : Text) × (q.exclude ≡ some (c ∷ s)) × ¬ IsFound (c ∷ s) l)

  -- No window, no time (0 is none), or a time within the window, its ends included.
  abbrev pub IsInWindow : StructuredLog → Type 0
  IsInWindow l =
      (q.time_filter ≡ none)
      ⊎ (l.timestamp_ms ≡ none)
      ⊎ (l.timestamp_ms ≡ some 0)
      ⊎ ((t : TimeFilter) × (ms : ℕ) × (q.time_filter ≡ some t)
          × (l.timestamp_ms ≡ some ms)
          × (t.start_ms ≤ ms)
          × (ms ≤ t.end_ms))

  abbrev pub IsKept : StructuredLog → Type 0
  IsKept l = IsIncluded l × IsNotExcluded l × IsInWindow l

  included-IsIncluded : (l : StructuredLog) → (included re q l ≡ true) ↔ IsIncluded l
  unfolding included
  included-IsIncluded l = elim (Filter-cases q.include) [
    | inl e ↦ (λ h. inl e, λ h. ground arith)
    | inr (inl e) ↦ (λ h. inr (inl e), λ h. ground arith)
    | inr (inr (c, s, e)) ↦
        let found = found_in-IsFound (c ∷ s) l in
        (
          λ h. inr (inr (c, s, e, found.0 (ground arith))),
          λ h. elim h [
            | inl f ↦ absurd (ground arith)
            | inr (inl f) ↦ absurd (ground arith)
            | inr (inr (d, t, f, is_found)) ↦
                let same : some (d ∷ t) ≡ some (c ∷ s) = sym f ∙ e in
                let there = found_in-IsFound (d ∷ t) l in let h' = there.1 is_found in rw f h'
          ],
        )
  ]

  excluded-IsNotExcluded : (l : StructuredLog) → (excluded re q l ≡ false) ↔ IsNotExcluded l
  unfolding excluded
  excluded-IsNotExcluded l = elim (Filter-cases q.exclude) [
    | inl e ↦ (λ h. inl e, λ h. ground arith)
    | inr (inl e) ↦ (λ h. inr (inl e), λ h. ground arith)
    | inr (inr (c, s, e)) ↦
        let found = found_in-IsFound (c ∷ s) l in
        (
          λ h.
              let missed : found_in re q (c ∷ s) l ≡ false = ground arith in
              inr (inr (c, s, e, λ is_found. absurd (ground (arith, found.1 is_found)))),
          λ h. elim h [
            | inl f ↦ absurd (ground arith)
            | inr (inl f) ↦ absurd (ground arith)
            | inr (inr (d, t, f, not_found)) ↦ elim (Bool-cases (found_in re q (d ∷ t) l)) [
              | inl g ↦ absurd (not_found ((found_in-IsFound (d ∷ t) l).0 g))
              | inr g ↦ rw f g
            ]
          ],
        )
  ]

  out_of_window-IsInWindow : (l : StructuredLog) → (out_of_window re q l ≡ false) ↔ IsInWindow l
  unfolding out_of_window
  out_of_window-IsInWindow l = elim (Option-cases q.time_filter) [
    | inl e ↦ (λ h. inl e, λ h. ground arith)
    | inr (t, e) ↦ elim (Option-cases l.timestamp_ms) [
      | inl f ↦ (λ h. inr (inl f), λ h. ground arith)
      | inr (zero, f) ↦ (λ h. inr (inr (inl f)), λ h. ground arith)
      | inr (suc ms, f) ↦ (
        λ h. inr (inr (inr (t, suc ms, e, f, ground arith, ground arith))),
        λ h. elim h [
          | inl g ↦ absurd (ground arith)
          | inr (inl g) ↦ absurd (ground arith)
          | inr (inr (inl g)) ↦ absurd (ground arith)
          | inr (inr (inr (u, n, g, k, from, to))) ↦ ground arith
        ],
      )
    ]
  ]

  passes-IsKept : (l : StructuredLog) → (passes re q l ≡ true) ↔ IsKept l
  passes-IsKept l = (
    λ h. (
      (included-IsIncluded l).0 (ground arith),
      (excluded-IsNotExcluded l).0 (ground arith),
      (out_of_window-IsInWindow l).0 (ground arith),
    ),
    λ (i, e, w).
        rw
          (
            (included-IsIncluded l).1 i,
            (excluded-IsNotExcluded l).1 e,
            (out_of_window-IsInWindow l).1 w,
          )
          refl,
  )

  -- The logs that pass are those whose text has the pattern of the filter and not that of the
  -- exclusion, and whose time, if there is one, is within the window. The result is the end of
  -- these, in the order of their times: all of them, or as many as the limit if that is less. The
  -- count before the limit is theirs.
  pub filter_logs-IsKept :
      (logs : List StructuredLog)
      → let out = filter_logs re q logs in
        (kept : StructuredLog → Bool) × (ordered : List StructuredLog) × ((l : StructuredLog)
          → (kept l ≡ true) ↔ IsKept l)
        × ((p : StructuredLog → Bool) → length (keep_if p ordered) ≡ length (keep_if p logs))
        × IsByTime ordered
        × IsByTime out.filtered_logs
        × ((front : List StructuredLog) × (keep_if kept ordered ≡ front ++ out.filtered_logs))
        × ((n : ℕ)
            → q.limit ≡ some (suc n)
            → length out.filtered_logs ≡ min (suc n) (length (keep_if kept logs)))
        × (some_limit re q q.limit ≡ false → out.filtered_logs ≡ keep_if kept ordered)
        × (out.filtered_count_before_limit ≡ length (keep_if kept logs))
  filter_logs-IsKept logs =
      let (front, bound, whole, count, i, e) = filter_logs_lem re q logs in
      let same = length-keep_if-sort_logs re q (passes re q) logs in
      (
        passes re q,
        sort_logs logs,
        passes-IsKept,
        λ p. length-keep_if-sort_logs re q p logs,
        sort_logs-IsByTime logs,
        filter_logs-IsByTime re q logs,
        front,
        λ n limited. bound n limited ∙ ap (min (suc n)) same,
        whole,
        count,
      )
