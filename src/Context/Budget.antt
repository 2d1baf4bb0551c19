-- ===== src/Context/Budget.antt =====
-- The loop of `truncate_messages_to_fit_context`
-- (holmes/core/truncation/input_context_window_limiter.py) in terms of its shares and cuts.
use mathlib.Core.Path.{ap₂}
use canis.Prelude.{
  ℕ, ◌-◌, ◌≤◌, ◌<◌, min, ◌≡◌, refl, ◌∙◌, false, none, List, [], ◌∷◌, map, arith, ltb, get_elem?,
  take, All, Bool-cases, inl, inr, ltb→lt, length, length-take, length-append, Text,
}
use canis.Tools.Json.{str}
use canis.Context.Message.{Message}
use canis.Context.Shares.{IsSorted, sum, shares, sum-shares}
use canis.Context.Truncate.{
  truncation_notice, Limits, tool_refs, sort_by, size_at, needed_space, cut, content_text,
  truncated_text, truncate_tools,
}
use canis.Context.Fits.{
  mem, IsDistinct, at_refs, need, cut_all, IsValidRef, allocate-others, allocate-cut_all,
}
use canis.Context.Refs.{
  tool_refs-IsDistinct, tool_refs-LeadsToTool, LeadsToTool, mem-sort_by, sort_by-IsDistinct,
  All-sort_by, sort_by-IsSorted,
}

module _ (l : Limits) where
  length-truncated_text : (s : Text) (a : ℕ) → length (truncated_text l s a) ≤ a
  unfolding truncated_text
  length-truncated_text s a = elim (Bool-cases (ltb (length truncation_notice) a)) [
    | inl e ↦ rw e (
        omega (
          arith,
          length-append (take (a - length truncation_notice) s) truncation_notice,
          length-take (a - length truncation_notice) s,
          ltb→lt (length truncation_notice) a e,
        ))
    | inr e ↦ rw e (omega (arith, length-take a truncation_notice))
  ]

  -- A message that needs no more than it is given stays as it is. Any other keeps its role and its
  -- identifiers, loses its stale count, and its content becomes a text of at most as many
  -- characters as it is given tokens.
  pub cut_bounds :
      (m : Message) (a : ℕ)
      → (needed_space l m ≤ a → cut l m a ≡ m)
        × (a < needed_space l m
            → (t : Text) × ((cut l m a) ≡ record m { content = str t; token_count = none })
              × (length t ≤ a))
  unfolding cut
  cut_bounds m a = (
    λ fits. ground arith,
    λ big. (
      truncated_text l (content_text l m.content) a,
      ground arith,
      length-truncated_text (content_text l m.content) a,
    ),
  )

  -- The references in the order of their sizes.
  abbrev pub sorted_refs : List Message → List ℕ
  sorted_refs ms = sort_by l (size_at l ms) (tool_refs l ms)

  abbrev pub needs : List Message → List ℕ
  needs ms = map (need l) (at_refs ms (sorted_refs ms))

  need-size_at : (ms : List Message) (r : ℕ) → need l (get_elem? ms r) ≡ size_at l ms r
  need-size_at ms r = ground arith

  needs-size_at :
      (ms : List Message) (rs : List ℕ) → map (need l) (at_refs ms rs) ≡ map (size_at l ms) rs
  needs-size_at ms [] = refl
  needs-size_at ms (r ∷ rs) =
      ap₂ {C = List ℕ} (λ x xs. x ∷ xs) (need-size_at ms r) (needs-size_at ms rs)

  pub needs-IsSorted : (ms : List Message) → IsSorted (needs ms)
  needs-IsSorted ms =
      rw (needs-size_at ms (sorted_refs ms)) (sort_by-IsSorted l (size_at l ms) (tool_refs l ms))

  LeadsToTool-IsValidRef :
      (ms : List Message) (rs : List ℕ) → All (LeadsToTool l ms) rs → All (IsValidRef l ms) rs
  LeadsToTool-IsValidRef ms [] h = tt
  LeadsToTool-IsValidRef ms (r ∷ rs) h = (ground arith, LeadsToTool-IsValidRef ms rs h.1)

  sorted_refs-IsDistinct : (ms : List Message) → IsDistinct (sorted_refs ms)
  sorted_refs-IsDistinct ms =
      sort_by-IsDistinct l (size_at l ms) (tool_refs l ms) (tool_refs-IsDistinct l ms)

  sorted_refs-IsValidRef : (ms : List Message) → All (IsValidRef l ms) (sorted_refs ms)
  sorted_refs-IsValidRef ms = LeadsToTool-IsValidRef ms (sorted_refs ms) (
      All-sort_by l (size_at l ms) (LeadsToTool l ms) (tool_refs l ms) (tool_refs-LeadsToTool l ms))

  -- The tool messages are cut to shares that take up the available space, or all that they need if
  -- that is less, and no other message changes.
  pub truncate_tools-cut_all :
      (ms : List Message) (available : ℕ)
      → let out = (truncate_tools l ms available).0 in
        let given = shares (needs ms) available in
        (at_refs out (sorted_refs ms) ≡ cut_all l (at_refs ms (sorted_refs ms)) given)
        × (sum given ≡ min available (sum (needs ms)))
        × ((i : ℕ) → mem i (tool_refs l ms) ≡ false → get_elem? out i ≡ get_elem? ms i)
  unfolding truncate_tools
  truncate_tools-cut_all ms available = (
    allocate-cut_all l (sorted_refs ms) available ms [] (sorted_refs-IsDistinct ms)
        (sorted_refs-IsValidRef ms),
    sum-shares (needs ms) available (needs-IsSorted ms),
    λ i other.
        allocate-others l (sorted_refs ms) available ms [] i
          (mem-sort_by l (size_at l ms) i (tool_refs l ms) ∙ other),
  )
