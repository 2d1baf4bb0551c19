-- ===== src/Tools/Approval.antt =====
-- What `Tool.invoke` promises: nothing runs without the approval that it asks for, and the
-- transformers touch the data alone.
use canis.Prelude.{
  ◌≡◌, ◌≢◌, ◌≤◌, ◌<◌, Bool, true, false, ◌||◌, some, List, [], ◌∷◌, arith, Text, codes, text_eq_iff,
  length, All,
}
use canis.Tools.Result.{StructuredToolResult, success, get_stringified_data, returned}
use canis.Tools.Invoke.{
  ToolInvokeContext, ApprovalRequirement, Transformer, Tool, Host, apply_one, apply_all,
  apply_transformers, get_approval_requirement, ask, saved, invoke,
}

module _ {P S : Type 0} (h : Host) (tool : Tool P S) where
  -- A call without the user's approval, of a tool whose configuration or whose own check asks for
  -- it, does not run the tool: the state is the one that the check left, and the answer is
  -- APPROVAL_REQUIRED with the reason of the check.
  pub invoke_waits :
      (params : P) (context : ToolInvokeContext) (s s' : S) (requirement : ApprovalRequirement)
      → context.user_approved ≡ false
      → get_approval_requirement h tool params context s ≡ (returned (some requirement), s')
      → requirement.needs_approval ≡ true
      → let params' = saved h tool params requirement.prefixes_to_save in
        invoke h tool params context s ≡ (returned (ask h tool params' requirement), params', s')
  unfolding invoke
  invoke_waits params context s s' requirement unapproved asked needed = ground arith

  -- The transformers change no field but the data, and nothing at all unless the call succeeded.
  pub apply_transformers_keeps :
      (r : StructuredToolResult P)
      → let r' = apply_transformers h tool r in
        (r'.status ≡ r.status)
        × (r'.error_text ≡ r.error_text)
        × (r'.params ≡ r.params)
        × (r'.return_code ≡ r.return_code)
        × (r.status ≢ success → r' ≡ r)
  unfolding apply_transformers
  apply_transformers_keeps r =
      (ground arith, ground arith, ground arith, ground arith, λ n. ground arith)

-- A summary is taken only if it is shorter than the text that it stands for.
abbrev pub IsSummarizer : Transformer → Type 0
IsSummarizer t = t.transformer_name ≡ codes "llm_summarize"

apply_one_shrinks :
    (t : Transformer) (text : Text)
    → IsSummarizer t
    → let (new, done) = apply_one t text in
      (length new ≤ length text) × (done ≡ true → length new < length text)
unfolding apply_one
apply_one_shrinks t text named =
    ground (arith, text_eq_iff t.transformer_name (codes "llm_summarize"))

apply_all_shrinks :
    (ts : List Transformer) (text : Text) (applied : Bool)
    → All IsSummarizer ts
    → length (apply_all ts text applied).0 ≤ length text
unfolding apply_all
apply_all_shrinks [] text applied h = omega arith
apply_all_shrinks (t ∷ ts) text applied h =
    let (new, done) = apply_one t text in
    omega (
      arith,
      apply_one_shrinks t text h.0,
      apply_all_shrinks ts (apply_one t text).0 (applied || (apply_one t text).1) h.1,
    )

-- With no other transformer than the summarizer, the text of a result never grows.
pub apply_transformers_shrinks :
    {P S : Type 0} (h : Host) (tool : Tool P S) (r : StructuredToolResult P)
    → All IsSummarizer tool.transformers
    → length (get_stringified_data h.dumps (apply_transformers h tool r))
      ≤ length (get_stringified_data h.dumps r)
unfolding apply_transformers get_stringified_data
apply_transformers_shrinks h tool r named =
    ground (arith, apply_all_shrinks tool.transformers (get_stringified_data h.dumps r) false named)
