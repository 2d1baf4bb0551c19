-- ===== src/JsonFilter.antt =====
-- The filter of JSON results, `JsonFilterMixin` (holmes/plugins/toolsets/json_filter_mixin.py).
pub mod Depth
pub mod Bounds
mod Tests
use canis.Prelude.{
  ℕ, zero, suc, ◌+◌, ◌-◌, ◌≤◌, max, leb, Bool, true, false, ◌≡◌, refl, sym, ap, ◌∙◌, ◌⊎◌, inl, inr,
  Option, none, some, List, [], ◌∷◌, ◌++◌, if◌then◌else◌, arith, Bool-cases, Text, codes, ℤ, pos,
  negsuc,
}
use canis.Tools.Json.{
  Json, null, boolean, number, str, arr, obj, Items, nil, cons, Members, end, member,
}
use canis.Tools.Result.{error, StructuredToolResult, error_result, Outcome, returned, raised}

pub record FilterParams : Type 0 where
  pub max_depth : Option ℤ
  pub jq : Option Text

-- `json.loads`, the matches of a jq expression in a value or the text of an exception, and the text
-- of a number.
pub record JsonTools : Type 0 where
  pub loads : Text → Option Json
  pub run_jq : Text → Json → Outcome Items
  pub shown : ℕ → Text

-- How deep the dictionaries and lists of a value are nested.
mutual
  pub depth : Json → ℕ
  depth null = 0
  depth (boolean b) = 0
  depth (number s) = 0
  depth (str s) = 0
  depth (arr xs) = suc (depth_items xs)
  depth (obj ms) = suc (depth_members ms)

  pub depth_items : Items → ℕ
  depth_items nil = 0
  depth_items (cons v xs) = max (depth v) (depth_items xs)

  pub depth_members : Members → ℕ
  depth_members end = 0
  depth_members (member k v ms) = max (depth v) (depth_members ms)

abbrev one_or_all : Items → Json
one_or_all nil = arr nil
one_or_all (cons v nil) = v
one_or_all (cons v (cons w ws)) = arr (cons v (cons w ws))

abbrev some_expression : Option Text → Option Text
some_expression none = none
some_expression (some []) = none
some_expression (some (c ∷ s)) = some (c ∷ s)

module _ (j : JsonTools) where
  abbrev cut_text : ℕ → Json
  cut_text n = str (codes "...truncated at depth " ++ j.shown n)

  -- `_truncate_to_depth` for a limit that is not negative
  mutual
    pub truncated : ℕ → ℕ → Json → Json
    truncated n c null = null
    truncated n c (boolean b) = boolean b
    truncated n c (number s) = number s
    truncated n c (str s) = str s
    truncated n c (arr xs) =
        let rest = truncated_items n (suc c) xs in if leb n c then cut_text n else arr rest
    truncated n c (obj ms) =
        let rest = truncated_members n (suc c) ms in if leb n c then cut_text n else obj rest

    pub truncated_items : ℕ → ℕ → Items → Items
    truncated_items n c nil = nil
    truncated_items n c (cons v xs) = cons (truncated n c v) (truncated_items n c xs)

    pub truncated_members : ℕ → ℕ → Members → Members
    truncated_members n c end = end
    truncated_members n c (member k v ms) = member k (truncated n c v) (truncated_members n c ms)

  unfoldable pub truncate_to_depth : Option ℤ → Json → Json
  unfolding truncated
  truncate_to_depth none v = v
  truncate_to_depth (some (negsuc n)) v = v
  truncate_to_depth (some (pos n)) v = truncated n 0 v

  -- The value, or the text of the error.
  unfoldable pub apply_jq_filter : Text → Json → Outcome Json
  apply_jq_filter expression v = elim (j.run_jq expression v) [
    | raised e ↦ raised (codes "Invalid jq expression: " ++ e)
    | returned matches ↦ returned (one_or_all matches)
  ]

  -- After the text is read: jq, if there is an expression, then the depth.
  unfoldable pub filter_value : FilterParams → Json → Outcome Json
  unfolding apply_jq_filter truncate_to_depth
  filter_value params v = elim (some_expression params.jq) [
    | none ↦ returned (truncate_to_depth params.max_depth v)
    | some expression ↦ elim (apply_jq_filter expression v) [
      | raised e ↦ raised e
      | returned w ↦ returned (truncate_to_depth params.max_depth w)
    ]
  ]

  -- A text that is no JSON is left as it is.
  unfoldable pub filter_result_data : Json → FilterParams → Outcome Json
  unfolding filter_value
  filter_result_data (str s) params = elim (j.loads s) [
    | none ↦ returned (str s)
    | some v ↦ filter_value params v
  ]
  filter_result_data null params = filter_value params null
  filter_result_data (boolean b) params = filter_value params (boolean b)
  filter_result_data (number s) params = filter_value params (number s)
  filter_result_data (arr xs) params = filter_value params (arr xs)
  filter_result_data (obj ms) params = filter_value params (obj ms)

  -- `read` takes the two parameters from the arguments of a tool.
  unfoldable pub filter_result :
      {P : Type 0} → (P → FilterParams) → StructuredToolResult P → P → StructuredToolResult P
  unfolding filter_result_data
  filter_result read r params = elim (filter_result_data r.result_data (read params)) [
    | raised e ↦ record (error_result e (some params)) {
      url = r.url;
      invocation = r.invocation;
      icon_url = r.icon_url;
    }
    | returned v ↦ record r { result_data = v }
  ]
