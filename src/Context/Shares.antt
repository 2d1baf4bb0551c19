-- ===== src/Context/Shares.antt =====
-- The allocation rule in the loop of `truncate_messages_to_fit_context`
-- (holmes/core/truncation/input_context_window_limiter.py), apart from the messages: each tool, the
-- smallest first, gets what it needs or an equal share of what is left.
use canis.Prelude.{
  ℕ, suc, ◌+◌, ◌-◌, ◌*◌, ◌/◌, ◌≤◌, ◌<◌, min, ◌≡◌, List, [], ◌∷◌, arith, length, All,
}
use native.Mathlib.Decide.{dec_le}

abbrev pub sum : List ℕ → ℕ
sum [] = 0
sum (n ∷ ns) = n + sum ns

-- `remaining_space // remaining_tools`, and the smaller of that and the need
unfoldable pub share : ℕ → ℕ → ℕ → ℕ
share need remaining others = min need (remaining / suc others)

unfoldable pub shares : List ℕ → ℕ → List ℕ
shares [] remaining = []
shares (n ∷ ns) remaining = let a = share n remaining (length ns) in a ∷ shares ns (remaining - a)

-- Ascending needs: the first is at most every other.
abbrev pub IsSorted : List ℕ → Type 0
IsSorted [] = Unit {0}
IsSorted (n ∷ ns) = All (λ m. n ≤ m) ns × IsSorted ns

mul_le : (k a b : ℕ) → a ≤ b → k * a ≤ k * b
mul_le k a b h = grind arith

div_bounds : (r k : ℕ) → (suc k * (r / suc k) ≤ r) × (r < suc k * (r / suc k) + suc k)
div_bounds r k = (grind arith, grind arith)

sum-ge : (c : ℕ) (ns : List ℕ) → All (λ m. c ≤ m) ns → length ns * c ≤ sum ns
sum-ge c [] h = grind arith
sum-ge c (n ∷ ns) h = grind (arith, sum-ge c ns h.1)

All-le : (a b : ℕ) (ns : List ℕ) → a ≤ b → All (λ m. b ≤ m) ns → All (λ m. a ≤ m) ns
All-le a b [] h hs = tt
All-le a b (n ∷ ns) h hs = (omega arith, All-le a b ns h hs.1)

div-le_self : (r k : ℕ) → r / suc k ≤ r
div-le_self r k = grind (arith, div_bounds r k)

-- A need above its share leaves at most what the others need, if each needs as much.
rest_needed : (r k q t : ℕ) → r < suc k * q + suc k → k * suc q ≤ t → r - q ≤ t
rest_needed r k q t h g = grind arith

-- Of sorted needs, the shares take up the whole space, or all that is needed if that is less.
pub sum-shares : (ns : List ℕ) (r : ℕ) → IsSorted ns → sum (shares ns r) ≡ min r (sum ns)
unfolding shares share
sum-shares [] r h = omega arith
sum-shares (n ∷ ns) r h = elim (dec_le n (r / suc (length ns))) [
  | yes p ↦
      omega (arith, sum-shares ns (r - min n (r / suc (length ns))) h.1, div-le_self r (length ns))
  | no p ↦ omega (
    arith,
    sum-shares ns (r - min n (r / suc (length ns))) h.1,
    div-le_self r (length ns),
    rest_needed r (length ns) (r / suc (length ns)) (sum ns) (div_bounds r (length ns)).1 (
        sum-ge (suc (r / suc (length ns))) ns
          (All-le (suc (r / suc (length ns))) n ns (omega arith) h.0)),
  )
]

div-ge : (c r k : ℕ) → suc k * c ≤ r → c ≤ r / suc k
div-ge c r k e = elim (dec_le c (r / suc k)) [
  | yes p ↦ p
  | no p ↦ absurd (grind (arith, div_bounds r k, mul_le k (suc (r / suc k)) c (omega arith)))
]

div-le : (c r k : ℕ) → r ≤ suc k * c → r / suc k ≤ c
div-le c r k e = elim (dec_le (r / suc k) c) [
  | yes p ↦ p
  | no p ↦ absurd (grind (arith, div_bounds r k, mul_le k (suc c) (r / suc k) (omega arith)))
]

rest-ge : (c r k n : ℕ) → suc k * c ≤ r → k * c ≤ r - min n (r / suc k)
rest-ge c r k n e =
    grind (arith, div_bounds r k, div-ge c r k e, mul_le k c (r / suc k) (div-ge c r k e))

rest-le : (c r k n : ℕ) → c ≤ n → r ≤ suc k * c → r - min n (r / suc k) ≤ k * c
rest-le c r k n l e = elim (dec_le c (r / suc k)) [
  | yes p ↦ grind (arith, div-le c r k e)
  | no p ↦ grind (arith, div_bounds r k, mul_le k (suc (r / suc k)) c (omega arith), div-le c r k e)
]

-- No share is below `c` where every need and an equal division are not.
shares-ge :
    (c : ℕ) (ns : List ℕ) (r : ℕ)
    → All (λ m. c ≤ m) ns
    → length ns * c ≤ r
    → All (λ a. c ≤ a) (shares ns r)
unfolding shares share
shares-ge c [] r h e = tt
shares-ge c (n ∷ ns) r h e = (
  omega (arith, div-ge c r (length ns) e, h.0),
  shares-ge c ns (r - min n (r / suc (length ns))) h.1 (rest-ge c r (length ns) n e),
)

-- No share is above `c` where an equal division is not and every need is at least `c`.
shares-le :
    (c : ℕ) (ns : List ℕ) (r : ℕ)
    → All (λ m. c ≤ m) ns
    → r ≤ length ns * c
    → All (λ a. a ≤ c) (shares ns r)
unfolding shares share
shares-le c [] r h e = tt
shares-le c (n ∷ ns) r h e = (
  omega (arith, div-le c r (length ns) e),
  shares-le c ns (r - min n (r / suc (length ns))) h.1 (rest-le c r (length ns) n h.0 e),
)

rest_equal : (r k n : ℕ) → k * min n (r / suc k) ≤ r - min n (r / suc k)
rest_equal r k n =
    grind (arith, div_bounds r k, mul_le k (min n (r / suc k)) (r / suc k) (omega arith))

rest_cut : (r k n : ℕ) → min n (r / suc k) < n → r - min n (r / suc k) ≤ k * suc (min n (r / suc k))
rest_cut r k n cut =
    let e : min n (r / suc k) ≡ r / suc k = omega arith in rw e (grind (arith, div_bounds r k))

-- Of sorted needs, no other gets less than the first; and if the first gets less than it needs,
-- no other gets more than one above it, which the division leaves over.
pub shares_fair :
    (n : ℕ) (ns : List ℕ) (r : ℕ)
    → IsSorted (n ∷ ns)
    → let a = share n r (length ns) in
      All (λ b. a ≤ b) (shares ns (r - a)) × (a < n → All (λ b. b ≤ suc a) (shares ns (r - a)))
unfolding share
shares_fair n ns r h = (
  shares-ge (share n r (length ns)) ns (r - share n r (length ns))
      (All-le (share n r (length ns)) n ns (omega arith) h.0) (rest_equal r (length ns) n),
  λ cut.
      shares-le (suc (share n r (length ns))) ns (r - share n r (length ns))
        (All-le (suc (share n r (length ns))) n ns cut h.0) (rest_cut r (length ns) n cut),
)
