-- ===== src/Context/Refs.antt =====
-- The references to the tool messages, and their order by size.
use canis.Prelude.{
  ℕ, suc, ◌≤◌, ◌≡◌, refl, ◌∙◌, true, false, ◌||◌, none, some, List, [], ◌∷◌, map, arith, leb, ◌==◌,
  get_elem?, All, Bool-cases, inl, inr,
}
use canis.Context.Message.{Message, is_role}
use canis.Context.Shares.{IsSorted}
use canis.Context.Truncate.{Limits, tool_refs, insert_by, sort_by}
use canis.Context.Fits.{mem, IsDistinct}

mem-map-suc : (r : ℕ) (rs : List ℕ) → mem (suc r) (map suc rs) ≡ mem r rs
mem-map-suc r [] = refl
mem-map-suc r (x ∷ rs) = ground (arith, mem-map-suc r rs)

not_mem_zero : (rs : List ℕ) → mem 0 (map suc rs) ≡ false
not_mem_zero [] = refl
not_mem_zero (x ∷ rs) = ground (arith, not_mem_zero rs)

map-suc-IsDistinct : (rs : List ℕ) → IsDistinct rs → IsDistinct (map suc rs)
map-suc-IsDistinct [] d = tt
map-suc-IsDistinct (x ∷ rs) d = (mem-map-suc x rs ∙ d.0, map-suc-IsDistinct rs d.1)

-- An insertion sort by `insert_by` keeps what holds of every element, and what is distinct.
module _ (l : Limits) where
  pub tool_refs-IsDistinct : (ms : List Message) → IsDistinct (tool_refs l ms)
  unfolding tool_refs
  tool_refs-IsDistinct [] = tt
  tool_refs-IsDistinct (m ∷ ms) = elim (Bool-cases (is_role "tool" m)) [
    | inl e ↦ rw e (not_mem_zero (tool_refs l ms), map-suc-IsDistinct _ (tool_refs-IsDistinct ms))
    | inr e ↦ rw e (map-suc-IsDistinct _ (tool_refs-IsDistinct ms))
  ]

  -- A reference leads to a tool message.
  abbrev pub LeadsToTool : List Message → ℕ → Type 0
  LeadsToTool ms r = elim (get_elem? ms r) [ none ↦ ⊥ | some m ↦ is_role "tool" m ≡ true ]

  All-map-suc :
      (m : Message) (ms : List Message) (rs : List ℕ)
      → All (LeadsToTool ms) rs
      → All (LeadsToTool (m ∷ ms)) (map suc rs)
  All-map-suc m ms [] h = tt
  All-map-suc m ms (r ∷ rs) h = (h.0, All-map-suc m ms rs h.1)

  pub tool_refs-LeadsToTool : (ms : List Message) → All (LeadsToTool ms) (tool_refs l ms)
  unfolding tool_refs
  tool_refs-LeadsToTool [] = tt
  tool_refs-LeadsToTool (m ∷ ms) = elim (Bool-cases (is_role "tool" m)) [
    | inl e ↦ rw e (e, All-map-suc m ms (tool_refs l ms) (tool_refs-LeadsToTool ms))
    | inr e ↦ rw e (All-map-suc m ms (tool_refs l ms) (tool_refs-LeadsToTool ms))
  ]

  module _ (key : ℕ → ℕ) where
    mem-insert_by : (x r : ℕ) (rs : List ℕ) → mem x (insert_by l key r rs) ≡ (x == r || mem x rs)
    unfolding insert_by
    mem-insert_by x r [] = refl
    mem-insert_by x r (y ∷ rs) = ground (arith, mem-insert_by x r rs)

    insert_by-IsDistinct :
        (r : ℕ) (rs : List ℕ) → mem r rs ≡ false → IsDistinct rs → IsDistinct (insert_by l key r rs)
    unfolding insert_by
    insert_by-IsDistinct r [] h d = (refl, tt)
    insert_by-IsDistinct r (y ∷ rs) h d =
        ground (arith, mem-insert_by y r rs, insert_by-IsDistinct r rs (ground arith) d.1)

    pub mem-sort_by : (x : ℕ) (rs : List ℕ) → mem x (sort_by l key rs) ≡ mem x rs
    unfolding sort_by
    mem-sort_by x [] = refl
    mem-sort_by x (r ∷ rs) = ground (arith, mem-insert_by x r (sort_by l key rs), mem-sort_by x rs)

    pub sort_by-IsDistinct : (rs : List ℕ) → IsDistinct rs → IsDistinct (sort_by l key rs)
    unfolding sort_by
    sort_by-IsDistinct [] d = tt
    sort_by-IsDistinct (r ∷ rs) d =
        insert_by-IsDistinct r (sort_by l key rs) (mem-sort_by r rs ∙ d.0)
          (sort_by-IsDistinct rs d.1)

    All-insert_by :
        (P : ℕ → Type 0) (r : ℕ) (rs : List ℕ) → P r → All P rs → All P (insert_by l key r rs)
    unfolding insert_by
    All-insert_by P r [] p h = (p, tt)
    All-insert_by P r (y ∷ rs) p h = elim (Bool-cases (leb (key r) (key y))) [
      | inl e ↦ rw e (p, h)
      | inr e ↦ rw e (h.0, All-insert_by P r rs p h.1)
    ]

    pub All-sort_by : (P : ℕ → Type 0) (rs : List ℕ) → All P rs → All P (sort_by l key rs)
    unfolding sort_by
    All-sort_by P [] h = tt
    All-sort_by P (r ∷ rs) h = All-insert_by P r (sort_by l key rs) h.0 (All-sort_by P rs h.1)

    map-All : (c : ℕ) (rs : List ℕ) → All (λ r. c ≤ key r) rs → All (λ n. c ≤ n) (map key rs)
    map-All c [] h = tt
    map-All c (r ∷ rs) h = (h.0, map-All c rs h.1)

    map-All-back : (c : ℕ) (rs : List ℕ) → All (λ n. c ≤ n) (map key rs) → All (λ r. c ≤ key r) rs
    map-All-back c [] h = tt
    map-All-back c (r ∷ rs) h = (h.0, map-All-back c rs h.1)

    All-le : (b c : ℕ) (ns : List ℕ) → b ≤ c → All (λ n. c ≤ n) ns → All (λ n. b ≤ n) ns
    All-le b c [] e h = tt
    All-le b c (n ∷ ns) e h = (omega arith, All-le b c ns e h.1)

    insert_by-IsSorted :
        (r : ℕ) (rs : List ℕ) → IsSorted (map key rs) → IsSorted (map key (insert_by l key r rs))
    unfolding insert_by
    insert_by-IsSorted r [] h = (tt, tt)
    insert_by-IsSorted r (y ∷ rs) h = elim (Bool-cases (leb (key r) (key y))) [
      | inl e ↦ rw e ((ground arith, All-le (key r) (key y) (map key rs) (ground arith) h.0), h)
      | inr e ↦ rw e (
        map-All (key y) (insert_by l key r rs)
            (All-insert_by (λ x. key y ≤ key x) r rs (ground arith) (map-All-back (key y) rs h.0)),
        insert_by-IsSorted r rs h.1,
      )
    ]

    pub sort_by-IsSorted : (rs : List ℕ) → IsSorted (map key (sort_by l key rs))
    unfolding sort_by
    sort_by-IsSorted [] = tt
    sort_by-IsSorted (r ∷ rs) = insert_by-IsSorted r (sort_by l key rs) (sort_by-IsSorted rs)
