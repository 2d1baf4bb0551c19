-- ===== src/Agent/Size.antt =====
-- `prevent_overly_big_tool_response`, holmes/core/tools_utils/tool_context_window_limiter.py.
use canis.Prelude.{
  ℕ, ◌+◌, ◌-◌, ◌*◌, ◌≤◌, max, ◌≡◌, ◌≢◌, ◌∙◌, refl, Bool, false, not, ◌⊎◌, inl, inr, Option, none,
  some, [], ◌∷◌, ◌++◌, arith, leb, if◌then◌else◌, length, length-append, length-take, take, Text,
  codes,
}
use canis.Tools.Json.{Json, null, str}
use canis.Tools.Result.{success, error, status_eq, StructuredToolResult, stringify_data}

-- `ToolCallResult` of holmes/core/models.py
pub record ToolCallResult (P : Type 0) : Type 0 where
  pub call_id : Text
  pub tool_name : Text
  pub description : Text
  pub result : StructuredToolResult P

-- The count of the result's message, the greatest count allowed, the spelling of a number, and, if
-- results are stored in files, `save_large_result`: the path for a content, if it was written.
pub record SizeLimit (P : Type 0) : Type 0 where
  pub count_message : ToolCallResult P → ℕ
  pub max_tokens_allowed : ℕ
  pub show_nat : ℕ → Text
  pub dumps : Bool → Json → Text
  pub save : Option (Text → Text → Text → Bool → Option Text)

module _ {P : Type 0} (l : SizeLimit P) where
  unfoldable pub size_info : ℕ → Text
  size_info n =
      codes "The tool call result is too large to return: "
      ++ (l.show_nat n ++ (codes "/" ++ (l.show_nat l.max_tokens_allowed ++ codes " tokens.\n")))

  unfoldable pub boilerplate : Text → Text → Text
  boilerplate info path =
      info
      ++ (codes "\nSaved to: "
          ++ (path
              ++ codes
                  "\nUse the bash commands to access the data that won't require prompting the user for approval (e.g. cat, grep, head, tail, jq).\n\nPreview:\n"))

  -- Two characters a token for the text before the preview and the preview.
  unfoldable pub preview : Text → Text → Text
  preview head text = head ++ take (l.max_tokens_allowed * 2 - length head) text

  unfoldable pub drop_data : ToolCallResult P → Text → ToolCallResult P
  drop_data r info =
      let old = r.result in
      record r {
        result = record old {
          status = error;
          result_data = null;
          error_text = some (
              info
              ++ codes
                  "\nTry to repeat the query but proactively narrow down the result so that the tool answer fits within the allowed number of tokens.");
        };
      }

  unfoldable pub keep_preview : ToolCallResult P → Text → ToolCallResult P
  keep_preview r text =
      let old = r.result in record r { result = record old { result_data = str text } }

  -- the path of the stored content, if results are stored and it was written
  unfoldable pub stored : ToolCallResult P → Option Text
  stored r = elim l.save [
    | none ↦ none
    | some save ↦
        let (text, is_json) = stringify_data l.dumps r.result false in
        save r.tool_name r.call_id text is_json
  ]

  -- An empty path is no path.
  abbrev pub shrink : Option Text → ToolCallResult P → Text → ToolCallResult P
  shrink none r info = drop_data r info
  shrink (some []) r info = drop_data r info
  shrink (some (c ∷ path)) r info =
      keep_preview r
        (preview (boilerplate info (c ∷ path)) (stringify_data l.dumps r.result false).0)

  -- The result as it goes on, and the count of the original message.
  unfoldable pub prevent_overly_big_tool_response : ToolCallResult P → ToolCallResult P × ℕ
  unfolding stored drop_data keep_preview preview size_info boilerplate
  prevent_overly_big_tool_response r =
      let n = l.count_message r in
      if not (status_eq r.result.status success)
      then (r, n)
      else if leb n l.max_tokens_allowed
      then (r, n)
      else (shrink (stored r) r (size_info n), n)

  shrink-bounds :
      (path : Option Text) (r : ToolCallResult P) (info : Text)
      → let r' = shrink path r info in
        ((r'.result.status ≡ error) × (r'.result.result_data ≡ null))
        ⊎ ((r'.result.status ≡ r.result.status)
            × ((text : Text) × (r'.result.result_data ≡ str text)
                × ((p : Text) × (path ≡ some p)
                    × (length text
                        ≤ max (length (boilerplate info p)) (l.max_tokens_allowed * 2)))))
  unfolding drop_data keep_preview preview
  shrink-bounds none r info = inl (refl, refl)
  shrink-bounds (some []) r info = inl (refl, refl)
  shrink-bounds (some (c ∷ path)) r info = inr (
    refl,
    (
      _,
      refl,
      (
        c ∷ path,
        refl,
        omega (
          arith,
          length-append (boilerplate info (c ∷ path)) (
              take (l.max_tokens_allowed * 2 - length (boilerplate info (c ∷ path)))
                (stringify_data l.dumps r.result false).0),
          length-take (l.max_tokens_allowed * 2 - length (boilerplate info (c ∷ path)))
              (stringify_data l.dumps r.result false).0,
        ),
      ),
    ),
  )

  big_shrinks :
      (r : ToolCallResult P)
      → r.result.status ≡ success
      → l.max_tokens_allowed + 1 ≤ l.count_message r
      → (prevent_overly_big_tool_response r).0 ≡ shrink (stored r) r (size_info (l.count_message r))
  unfolding prevent_overly_big_tool_response
  big_shrinks r good big = ground arith

  -- A result that failed or that is small enough goes on as it is. Any other loses its data with an
  -- error, or, if its text was stored under a path, becomes a text of at most two characters for
  -- each allowed token, or of the notice with the path if that is longer.
  pub prevent_overly_big_bounds :
      (r : ToolCallResult P)
      → let r' = (prevent_overly_big_tool_response r).0 in
        let n = l.count_message r in
        ((r.result.status ≢ success) → r' ≡ r)
        × (n ≤ l.max_tokens_allowed → r' ≡ r)
        × (r.result.status ≡ success
            → l.max_tokens_allowed + 1 ≤ n
            → ((r'.result.status ≡ error) × (r'.result.result_data ≡ null))
              ⊎ ((r'.result.status ≡ success)
                  × ((text : Text) × (r'.result.result_data ≡ str text)
                      × ((p : Text) × (stored r ≡ some p)
                          × (length text
                              ≤ max
                                  (length (boilerplate (size_info n) p))
                                  (l.max_tokens_allowed * 2))))))
  unfolding prevent_overly_big_tool_response
  prevent_overly_big_bounds r = (
    λ n. ground arith,
    λ n. ground arith,
    λ good big.
        rw (big_shrinks r good big)
          (elim (shrink-bounds (stored r) r (size_info (l.count_message r))) [
            | inl dropped ↦ inl dropped
            | inr (same, kept) ↦ inr (same ∙ good, kept)
          ]),
  )
