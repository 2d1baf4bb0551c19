-- ===== src/Logs/Order.antt =====
-- The order of the filtered logs (holmes/plugins/toolsets/kubernetes_logs.py, `filter_logs`).
use canis.Prelude.{ℕ, ◌≤◌, Bool, List, [], ◌∷◌, ◌++◌, arith, keep_if, Bool-cases, inl, inr, All}
use canis.Logs.Lines.{StructuredLog}
use canis.Logs.Filter.{
  sort_key, insert_log, sort_logs, Regex, LogQuery, passes, filter_logs, filter_logs_lem,
}

-- No log comes before one with an earlier time.
abbrev pub IsByTime : List StructuredLog → Type 0
IsByTime [] = Unit {0}
IsByTime (l ∷ []) = Unit {0}
IsByTime (l ∷ k ∷ ks) = (sort_key l ≤ sort_key k) × IsByTime (k ∷ ks)

insert_log-IsByTime :
    (l : StructuredLog) (ls : List StructuredLog) → IsByTime ls → IsByTime (insert_log l ls)
unfolding insert_log
insert_log-IsByTime l [] h = tt
insert_log-IsByTime l (k ∷ []) h = ground arith
insert_log-IsByTime l (k ∷ j ∷ ks) h = ground (arith, insert_log-IsByTime l (j ∷ ks) h.1)

pub sort_logs-IsByTime : (ls : List StructuredLog) → IsByTime (sort_logs ls)
unfolding sort_logs
sort_logs-IsByTime [] = tt
sort_logs-IsByTime (l ∷ ls) = insert_log-IsByTime l (sort_logs ls) (sort_logs-IsByTime ls)

drop_first-IsByTime :
    (l : StructuredLog) (ls : List StructuredLog) → IsByTime (l ∷ ls) → IsByTime ls
drop_first-IsByTime l [] h = tt
drop_first-IsByTime l (k ∷ ks) h = h.1

drop_front-IsByTime : (front ls : List StructuredLog) → IsByTime (front ++ ls) → IsByTime ls
drop_front-IsByTime [] ls h = h
drop_front-IsByTime (l ∷ front) ls h =
    drop_front-IsByTime front ls (drop_first-IsByTime l (front ++ ls) h)

abbrev IsFrom : ℕ → List StructuredLog → Type 0
IsFrom t ls = All (λ l. t ≤ sort_key l) ls

IsFrom-later : (t u : ℕ) (ls : List StructuredLog) → t ≤ u → IsFrom u ls → IsFrom t ls
IsFrom-later t u [] le h = tt
IsFrom-later t u (l ∷ ls) le h = (omega arith, IsFrom-later t u ls le h.1)

IsByTime-IsFrom :
    (l : StructuredLog) (ls : List StructuredLog) → IsByTime (l ∷ ls) → IsFrom (sort_key l) ls
IsByTime-IsFrom l [] h = tt
IsByTime-IsFrom l (k ∷ ks) h =
    (h.0, IsFrom-later (sort_key l) (sort_key k) ks h.0 (IsByTime-IsFrom k ks h.1))

IsFrom-IsByTime :
    (l : StructuredLog) (ls : List StructuredLog)
    → IsFrom (sort_key l) ls
    → IsByTime ls
    → IsByTime (l ∷ ls)
IsFrom-IsByTime l [] from h = tt
IsFrom-IsByTime l (k ∷ ks) from h = (from.0, h)

keep_if-IsFrom :
    (p : StructuredLog → Bool) (t : ℕ) (ls : List StructuredLog)
    → IsFrom t ls
    → IsFrom t (keep_if p ls)
keep_if-IsFrom p t [] h = tt
keep_if-IsFrom p t (l ∷ ls) h = elim (Bool-cases (p l)) [
  | inl e ↦ rw e (h.0, keep_if-IsFrom p t ls h.1)
  | inr e ↦ rw e (keep_if-IsFrom p t ls h.1)
]

keep_if-IsByTime :
    (p : StructuredLog → Bool) (ls : List StructuredLog) → IsByTime ls → IsByTime (keep_if p ls)
keep_if-IsByTime p [] h = tt
keep_if-IsByTime p (l ∷ ls) h = elim (Bool-cases (p l)) [
  | inl e ↦ rw e (
      IsFrom-IsByTime l (keep_if p ls) (keep_if-IsFrom p (sort_key l) ls (IsByTime-IsFrom l ls h))
        (keep_if-IsByTime p ls (drop_first-IsByTime l ls h)))
  | inr e ↦ rw e (keep_if-IsByTime p ls (drop_first-IsByTime l ls h))
]

-- The logs that are returned are in the order of their times.
pub filter_logs-IsByTime :
    (re : Regex) (q : LogQuery) (logs : List StructuredLog)
    → IsByTime (filter_logs re q logs).filtered_logs
filter_logs-IsByTime re q logs =
    let (front, split) = (filter_logs_lem re q logs).0 in
    drop_front-IsByTime front (filter_logs re q logs).filtered_logs
      (rw (← split) (keep_if-IsByTime (passes re q) (sort_logs logs) (sort_logs-IsByTime logs)))
