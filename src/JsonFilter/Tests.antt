-- ===== src/JsonFilter/Tests.antt =====
-- The filter on a nested document.
use canis.Prelude.{ℕ, ◌+◌, ◌≤◌, ◌≡◌, refl, none, some, [], ◌∷◌, codes, pos}
use canis.Tools.Json.{Json, number, str, arr, obj, nil, cons, end, member}
use canis.Tools.Result.{success, StructuredToolResult, error_result, returned}
use canis.JsonFilter.{FilterParams, JsonTools, depth, truncate_to_depth, truncated, filter_result}
use canis.JsonFilter.Bounds.{filter_result_lem}

abbrev json_tools : JsonTools
json_tools = record {
  loads = λ s. none;
  run_jq = λ e v. returned (cons v nil);
  shown = λ n. (48 + n) ∷ [];
}

abbrev nested : Json
nested = obj (
    member (codes "items") (arr (cons (obj (member (codes "id") (number (codes "1")) end)) nil))
      end)

abbrev result : StructuredToolResult ℕ
result = record (error_result [] (some 1)) { status = success; result_data = nested }

abbrev read : ℕ → FilterParams
read n = record { max_depth = some (pos n); jq = none }

-- With a limit of 0 the whole document is replaced.
nothing_left :
    (filter_result json_tools read result 0).result_data ≡ str (codes "...truncated at depth 0")
unfolding filter_result truncated
nothing_left = refl

filter_result_example :
    (depth (filter_result json_tools read result 1).result_data ≤ 1)
    × (truncate_to_depth json_tools
          (some (pos 1))
          (filter_result json_tools read result 1).result_data
        ≡ (filter_result json_tools read result 1).result_data)
filter_result_example = filter_result_lem json_tools read result 1 1 refl
