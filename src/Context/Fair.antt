-- ===== src/Context/Fair.antt =====
-- The division of the window among the tool messages, described without the allocation rule
-- (`truncate_messages_to_fit_context`, holmes/core/truncation/input_context_window_limiter.py).
use canis.Prelude.{
  ℕ, suc, ◌+◌, ◌-◌, ◌≤◌, ◌<◌, min, ◌≡◌, refl, ap, false, Option, none, some, List, [], ◌∷◌, map,
  arith, get_elem?, All, inl, inr, ◌⊎◌, length, Text, ◌∙◌,
}
use native.Mathlib.Decide.{dec_le}
use canis.Tools.Json.{str}
use canis.Context.Message.{Message}
use canis.Context.Shares.{IsSorted, sum, share, shares, sum-shares, shares_fair}
use canis.Context.Truncate.{
  Limits, TruncationMetadata, tool_refs, size_at, needed_space, truncate_tools,
  truncate_messages_to_fit_context, truncated, prompts_too_large, mark_except_tools,
  size_without_tools, reserved, cut,
}
use canis.Context.Fits.{mem, at_refs, need, cut_all}
use canis.Context.Refs.{mem-sort_by}
use canis.Context.Budget.{cut_bounds, sorted_refs, needs, needs-IsSorted, truncate_tools-cut_all}

-- What is given for ascending needs is fair: nobody gets more than it needs or more than a later
-- one, and whoever gets less than it needs gets at most one less than every later one.
unfoldable pub IsFair : List ℕ → List ℕ → Type 0
IsFair [] [] = Unit {0}
IsFair [] (a ∷ given) = ⊥
IsFair (n ∷ ns) [] = ⊥
IsFair (n ∷ ns) (a ∷ given) =
    (a ≤ n) × All (λ b. a ≤ b) given × ((a ≡ n) ⊎ All (λ b. b ≤ suc a) given) × IsFair ns given

shares-IsFair : (ns : List ℕ) (r : ℕ) → IsSorted ns → IsFair ns (shares ns r)
unfolding shares share IsFair
shares-IsFair [] r h = tt
shares-IsFair (n ∷ ns) r h =
    let (least, cut_short) = shares_fair n ns r h in
    let a = share n r (length ns) in
    let rest = shares-IsFair ns (r - a) h.1 in
    elim (dec_le n a) [
      | yes p ↦ (omega arith, least, inl (omega arith), rest)
      | no p ↦ (omega arith, least, inr (cut_short (omega arith)), rest)
    ]

module _ (l : Limits) where
  -- A message that needs no more than it is given stays as it is. Any other keeps its role and its
  -- identifiers, loses its stale count, and its content becomes a text of at most as many
  -- characters as it is given tokens.
  abbrev pub IsFitted : Option Message → ℕ → Option Message → Type 0
  IsFitted none a m' = m' ≡ none
  IsFitted (some m) a m' =
      ((needed_space l m ≤ a) × (m' ≡ some m))
      ⊎ ((a < needed_space l m)
          × ((t : Text) × (m' ≡ some (record m { content = str t; token_count = none }))
              × (length t ≤ a)))

  abbrev pub AllFitted : List (Option Message) → List ℕ → List (Option Message) → Type 0
  AllFitted [] given ms' = ms' ≡ []
  AllFitted (m ∷ ms) (a ∷ given) (m' ∷ ms') = IsFitted m a m' × AllFitted ms given ms'
  AllFitted (m ∷ ms) [] ms' = ⊥
  AllFitted (m ∷ ms) (a ∷ given) [] = ⊥

  cut-IsFitted : (m : Message) (a : ℕ) → IsFitted (some m) a (some (cut l m a))
  cut-IsFitted m a =
      let (whole, shorter) = cut_bounds l m a in
      elim (dec_le (needed_space l m) a) [
        | yes p ↦ inl (p, ap some (whole p))
        | no p ↦
            let big : a < needed_space l m = omega arith in
            let (t, same, short) = shorter big in inr (big, (t, ap some same, short))
      ]

  cut_all-AllFitted :
      (ms : List (Option Message)) (given : List ℕ)
      → length given ≡ length ms
      → AllFitted ms given (cut_all l ms given)
  cut_all-AllFitted [] given h = refl
  cut_all-AllFitted (m ∷ ms) [] h = absurd (omega (arith, h))
  cut_all-AllFitted (none ∷ ms) (a ∷ given) h =
      (refl, cut_all-AllFitted ms given (omega (arith, h)))
  cut_all-AllFitted (some m ∷ ms) (a ∷ given) h =
      (cut-IsFitted m a, cut_all-AllFitted ms given (omega (arith, h)))

  length-shares : (ns : List ℕ) (r : ℕ) → length (shares ns r) ≡ length ns
  unfolding shares
  length-shares [] r = refl
  length-shares (n ∷ ns) r = ap suc (length-shares ns (r - share n r (length ns)))

  length-need : (ms : List (Option Message)) → length (map (need l) ms) ≡ length ms
  length-need [] = refl
  length-need (m ∷ ms) = ap suc (length-need ms)

  -- `given` divides the available space fairly among the tool messages, the smallest first: all of
  -- it, or all that they need if that is less; each message is brought within what it is given, and
  -- no other message changes.
  abbrev pub IsDivided : List Message → ℕ → List ℕ → List Message → Type 0
  IsDivided ms available given out =
      (refs : List ℕ) × ((i : ℕ) → mem i refs ≡ mem i (tool_refs l ms))
      × IsSorted (map (need l) (at_refs ms refs))
      × IsFair (map (need l) (at_refs ms refs)) given
      × (sum given ≡ min available (sum (map (need l) (at_refs ms refs))))
      × AllFitted (at_refs ms refs) given (at_refs out refs)
      × ((i : ℕ) → mem i (tool_refs l ms) ≡ false → get_elem? out i ≡ get_elem? ms i)

  -- The tool messages are brought within fair shares of the available space, which take up all of
  -- it or all that is needed if that is less; a message that needs no more than its share stays
  -- whole, any other becomes a text no longer than its share; and no other message changes.
  pub truncate_tools-IsDivided :
      (ms : List Message) (available : ℕ)
      → (given : List ℕ) × IsDivided ms available given (truncate_tools l ms available).0
  truncate_tools-IsDivided ms available =
      let (cut_short, total, others) = truncate_tools-cut_all l ms available in
      let refs = at_refs ms (sorted_refs l ms) in
      let given = shares (needs l ms) available in
      let fitted =
        cut_all-AllFitted refs given (length-shares (needs l ms) available ∙ length-need refs) in
      (
        given,
        (
          sorted_refs l ms,
          λ i. mem-sort_by l (size_at l ms) i (tool_refs l ms),
          needs-IsSorted l ms,
          shares-IsFair (needs l ms) available (needs-IsSorted l ms),
          total,
          (rw cut_short fitted),
          others,
        ),
      )

  pub truncate_messages_fits :
      (messages : List Message) (max_context_size maximum_output_token : ℕ)
      → let size = size_without_tools l messages in
        let room = reserved l maximum_output_token in
        let marked = map (mark_except_tools l) messages in
        let call =
          truncate_messages_to_fit_context l messages max_context_size maximum_output_token in
        ((max_context_size ≤ size + room) × (call ≡ prompts_too_large size max_context_size room))
        ⊎ ((out : List Message) × (notes : List TruncationMetadata) × (given : List ℕ) × (call
              ≡ truncated (out, notes))
            × (size + room + sum given ≤ max_context_size)
            × IsDivided marked (max_context_size - size - room) given out)
  unfolding truncate_messages_to_fit_context
  truncate_messages_fits messages max_context_size maximum_output_token =
      let size = size_without_tools l messages in
      let room = reserved l maximum_output_token in
      let marked = map (mark_except_tools l) messages in
      let available = max_context_size - size - room in
      let (given, divided) = truncate_tools-IsDivided marked available in
      elim (dec_le max_context_size (size + room)) [
        | yes p ↦ inl (p, ground arith)
        | no p ↦
            let (out, notes) = truncate_tools l marked available in
            let total = sum-shares (needs l marked) available (needs-IsSorted l marked) in
            inr (out, notes, given, ground arith, omega (arith, total), divided)
      ]
