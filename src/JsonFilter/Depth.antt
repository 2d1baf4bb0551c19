-- ===== src/JsonFilter/Depth.antt =====
-- The depth of what is cut (holmes/plugins/toolsets/json_filter_mixin.py, `_truncate_to_depth`).
use canis.Prelude.{ℕ, suc, ◌-◌, ◌≤◌, leb, false, ◌≡◌, refl, ap, arith}
use canis.Tools.Json.{
  Json, null, boolean, number, str, arr, obj, Items, nil, cons, Members, end, member,
}
use canis.JsonFilter.{
  JsonTools, depth, depth_items, depth_members, truncated, truncated_items, truncated_members,
}

module _ (j : JsonTools) where
  mutual
    unfolding truncated truncated_items truncated_members depth depth_items depth_members

    pub truncated_bounded : (n c : ℕ) (v : Json) → depth (truncated j n c v) ≤ n - c
    truncated_bounded n c null = omega arith
    truncated_bounded n c (boolean b) = omega arith
    truncated_bounded n c (number s) = omega arith
    truncated_bounded n c (str s) = omega arith
    truncated_bounded n c (arr xs) = ground (arith, items_bounded n (suc c) xs)
    truncated_bounded n c (obj ms) = ground (arith, members_bounded n (suc c) ms)

    items_bounded : (n c : ℕ) (xs : Items) → depth_items (truncated_items j n c xs) ≤ n - c
    items_bounded n c nil = omega arith
    items_bounded n c (cons v xs) = omega (arith, truncated_bounded n c v, items_bounded n c xs)

    members_bounded : (n c : ℕ) (ms : Members) → depth_members (truncated_members j n c ms) ≤ n - c
    members_bounded n c end = omega arith
    members_bounded n c (member k v ms) =
        omega (arith, truncated_bounded n c v, members_bounded n c ms)

  mutual
    unfolding truncated truncated_items truncated_members depth depth_items depth_members

    pub truncated_keeps : (n c : ℕ) (v : Json) → depth v ≤ n - c → truncated j n c v ≡ v
    truncated_keeps n c null h = refl
    truncated_keeps n c (boolean b) h = refl
    truncated_keeps n c (number s) h = refl
    truncated_keeps n c (str s) h = refl
    truncated_keeps n c (arr xs) h =
        let deeper : leb n c ≡ false = ground arith in
        rw deeper (ap arr (items_keep n (suc c) xs (omega arith)))
    truncated_keeps n c (obj ms) h =
        let deeper : leb n c ≡ false = ground arith in
        rw deeper (ap obj (members_keep n (suc c) ms (omega arith)))

    items_keep : (n c : ℕ) (xs : Items) → depth_items xs ≤ n - c → truncated_items j n c xs ≡ xs
    items_keep n c nil h = refl
    items_keep n c (cons v xs) h =
        cc (truncated_keeps n c v (omega arith), items_keep n c xs (omega arith))

    members_keep :
        (n c : ℕ) (ms : Members) → depth_members ms ≤ n - c → truncated_members j n c ms ≡ ms
    members_keep n c end h = refl
    members_keep n c (member k v ms) h =
        cc (truncated_keeps n c v (omega arith), members_keep n c ms (omega arith))
