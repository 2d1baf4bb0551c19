-- ===== src/Tools/Tests.antt =====
-- The theorems on tools at a concrete tool.
use canis.Prelude.{ℕ, ◌≤◌, ◌≡◌, refl, true, false, none, [], ◌∷◌, codes, take, length, text_eq}
use canis.Tools.Json.{str}
use canis.Tools.Result.{StructuredToolResult, success, error_result, get_stringified_data, returned}
use canis.Tools.Invoke.{Tool, Host, Transformer, apply_transformers}
use canis.Tools.Approval.{apply_transformers_shrinks}

abbrev host : Host
host = record { fnmatch = λ s p. false; dumps = λ compact v. codes "{}" }

abbrev first_five : Transformer
first_five = record {
  transformer_name = codes "llm_summarize";
  should_apply = λ s. returned true;
  transform = λ s. returned (take 5 s);
}

abbrev tool : Tool ℕ ℕ
tool = record {
  name = codes "t";
  icon = none;
  restricted = false;
  restricted_patterns = [];
  approval_patterns = [];
  transformers = first_five ∷ [];
  one_liner = λ p. [];
  set_prefixes = λ p prefixes. p;
  requires_approval = λ p c s. (returned none, s);
  run = λ p c s. (returned (error_result [] none), s);
}

abbrev answer : StructuredToolResult ℕ
answer = record (error_result {P = ℕ} [] none) {
  status = success;
  result_data = str (codes "a long text");
}

summarized : get_stringified_data host.dumps (apply_transformers host tool answer) ≡ codes "a lon"
unfolding apply_transformers get_stringified_data text_eq
summarized = refl

apply_transformers_shrinks_example :
    length (get_stringified_data host.dumps (apply_transformers host tool answer))
    ≤ length (get_stringified_data host.dumps answer)
apply_transformers_shrinks_example = apply_transformers_shrinks host tool answer (refl, tt)
