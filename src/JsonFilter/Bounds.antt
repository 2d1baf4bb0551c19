-- ===== src/JsonFilter/Bounds.antt =====
-- What `filter_result` returns under a limit (holmes/plugins/toolsets/json_filter_mixin.py).
use canis.Prelude.{
  ℕ, ◌≤◌, ◌≡◌, refl, ◌⊎◌, inl, inr, Option, some, arith, Option-cases, Text, ℤ, pos,
}
use canis.Tools.Json.{Json, null, boolean, number, str, arr, obj}
use canis.Tools.Result.{StructuredToolResult, Outcome, returned, raised}
use canis.JsonFilter.{
  FilterParams, JsonTools, depth, truncate_to_depth, some_expression, apply_jq_filter, filter_value,
  filter_result_data, filter_result,
}
use canis.JsonFilter.Depth.{truncated_bounded, truncated_keeps}

-- What is returned is no deeper than the limit.
abbrev IsCut : ℕ → Outcome Json → Type 0
IsCut n (raised e) = Unit
IsCut n (returned v) = depth v ≤ n

Outcome-cases :
    {A : Type 0} (o : Outcome A) → ((e : Text) × (o ≡ raised e)) ⊎ ((a : A) × (o ≡ returned a))
Outcome-cases (raised e) = inl (e, refl)
Outcome-cases (returned a) = inr (a, refl)

module _ (j : JsonTools) where
  truncate_to_depth_bounded :
      (n : ℕ) (m : Option ℤ) (v : Json) → m ≡ some (pos n) → depth (truncate_to_depth j m v) ≤ n
  unfolding truncate_to_depth
  truncate_to_depth_bounded n m v limit = rw limit (omega (arith, truncated_bounded j n 0 v))

  filter_value-IsCut :
      (n : ℕ) (params : FilterParams) (v : Json)
      → params.max_depth ≡ some (pos n)
      → IsCut n (filter_value j params v)
  unfolding filter_value
  filter_value-IsCut n params v limit = elim (Option-cases (some_expression params.jq)) [
    | inl e ↦ rw (filter_value, e) (truncate_to_depth_bounded n params.max_depth v limit)
    | inr (expression, e) ↦ elim (Outcome-cases (apply_jq_filter j expression v)) [
      | inl (t, e2) ↦ rw (filter_value, e) (rw e2 tt)
      | inr (w, e2) ↦
          rw (filter_value, e) (rw e2 (truncate_to_depth_bounded n params.max_depth w limit))
    ]
  ]

  filter_result_data-IsCut :
      (n : ℕ) (params : FilterParams) (v : Json)
      → params.max_depth ≡ some (pos n)
      → IsCut n (filter_result_data j v params)
  unfolding filter_result_data depth
  filter_result_data-IsCut n params (str s) limit = elim (Option-cases (j.loads s)) [
    | inl e ↦ rw (filter_result_data, e) (omega arith)
    | inr (v, e) ↦ rw (filter_result_data, e) (filter_value-IsCut n params v limit)
  ]
  filter_result_data-IsCut n params null limit = filter_value-IsCut n params null limit
  filter_result_data-IsCut n params (boolean b) limit =
      filter_value-IsCut n params (boolean b) limit
  filter_result_data-IsCut n params (number s) limit = filter_value-IsCut n params (number s) limit
  filter_result_data-IsCut n params (arr xs) limit = filter_value-IsCut n params (arr xs) limit
  filter_result_data-IsCut n params (obj ms) limit = filter_value-IsCut n params (obj ms) limit

  depth-filter_result :
      {P : Type 0} (read : P → FilterParams) (r : StructuredToolResult P) (params : P) (n : ℕ)
      → (read params).max_depth ≡ some (pos n)
      → depth (filter_result j read r params).result_data ≤ n
  unfolding filter_result depth
  depth-filter_result read r params n limit =
      elim (Outcome-cases (filter_result_data j r.result_data (read params))) [
        | inl (t, e) ↦ rw (filter_result, e) (omega arith)
        | inr (v, e) ↦
            rw (filter_result, e)
              (rw e at (filter_result_data-IsCut n (read params) r.result_data limit))
      ]

  -- Under a limit that is not negative, whatever the data, the jq expression and its errors, the
  -- data of the result is nested no deeper than the limit, and cutting it again changes nothing.
  pub filter_result_lem :
      {P : Type 0} (read : P → FilterParams) (r : StructuredToolResult P) (params : P) (n : ℕ)
      → (read params).max_depth ≡ some (pos n)
      → (depth (filter_result j read r params).result_data ≤ n)
        × (truncate_to_depth j (some (pos n)) (filter_result j read r params).result_data
            ≡ (filter_result j read r params).result_data)
  unfolding truncate_to_depth
  filter_result_lem read r params n limit =
      let bound = depth-filter_result read r params n limit in
      (bound, truncated_keeps j n 0 (filter_result j read r params).result_data (omega arith))
