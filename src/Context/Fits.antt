-- ===== src/Context/Fits.antt =====
-- What `truncate_messages_to_fit_context` does to the messages.
use canis.Prelude.{
  ℕ, zero, suc, ◌-◌, ◌≡◌, ◌≢◌, refl, ap, sym, ◌∙◌, inl, inr, Bool, true, false, ◌||◌, is_some,
  Option-cases, Option, none, some, List, [], ◌∷◌, map, arith, ◌==◌, length, get_elem?, All,
}
use mathlib.Core.Option
use mathlib.Core.Path.{ap₂}
use canis.Context.Message.{Message}
use canis.Context.Shares.{share, shares}
use canis.Context.Truncate.{TruncationMetadata, Limits, needed_space, set, cut, note, allocate}

-- A reference stands in the list.
abbrev pub mem : ℕ → List ℕ → Bool
mem r [] = false
mem r (x ∷ xs) = r == x || mem r xs

abbrev pub IsDistinct : List ℕ → Type 0
IsDistinct [] = Unit {0}
IsDistinct (r ∷ rs) = (mem r rs ≡ false) × IsDistinct rs

get_elem?-set_self :
    (ms : List Message) (i : ℕ) (old m : Message)
    → get_elem? ms i ≡ some old
    → get_elem? (set ms i m) i ≡ some m
get_elem?-set_self [] i old m h = cc
get_elem?-set_self (x ∷ ms) zero old m h = refl
get_elem?-set_self (x ∷ ms) (suc i) old m h = get_elem?-set_self ms i old m h

get_elem?-set_ne :
    (ms : List Message) (i j : ℕ) (m : Message) → i ≢ j → get_elem? (set ms i m) j ≡ get_elem? ms j
get_elem?-set_ne [] i j m h = refl
get_elem?-set_ne (x ∷ ms) zero zero m h = absurd (h refl)
get_elem?-set_ne (x ∷ ms) zero (suc j) m h = refl
get_elem?-set_ne (x ∷ ms) (suc i) zero m h = refl
get_elem?-set_ne (x ∷ ms) (suc i) (suc j) m h = get_elem?-set_ne ms i j m (λ e. h (ap suc e))

-- The messages at some references, and the cuts of messages by shares.
abbrev pub at_refs : List Message → List ℕ → List (Option Message)
at_refs ms rs = map (get_elem? ms) rs

module _ (l : Limits) where
  abbrev pub need : Option Message → ℕ
  need none = 0
  need (some m) = needed_space l m

  abbrev pub cut_all : List (Option Message) → List ℕ → List (Option Message)
  cut_all [] given = []
  cut_all (m ∷ ms) [] = m ∷ ms
  cut_all (m ∷ ms) (a ∷ given) = Option.map (λ x. cut l x a) m ∷ cut_all ms given

  abbrev pub IsValidRef : List Message → ℕ → Type 0
  IsValidRef ms r = is_some (get_elem? ms r) ≡ true

  allocate-none :
      (r : ℕ) (rs : List ℕ) (remaining : ℕ) (ms : List Message) (ts : List TruncationMetadata)
      → get_elem? ms r ≡ none
      → allocate l (r ∷ rs) remaining ms ts ≡ allocate l rs remaining ms ts
  unfolding allocate
  allocate-none r rs remaining ms ts e = ground arith

  abbrev given : Message → ℕ → List ℕ → ℕ
  given m remaining rs = share (needed_space l m) remaining (length rs)

  allocate-some :
      (r : ℕ) (rs : List ℕ) (remaining : ℕ) (ms : List Message) (ts : List TruncationMetadata)
      (m : Message)
      → get_elem? ms r ≡ some m
      → allocate l (r ∷ rs) remaining ms ts
        ≡ allocate l rs
            (remaining - given m remaining rs)
            (set ms r (cut l m (given m remaining rs)))
            (note l m (given m remaining rs) ts)
  unfolding allocate
  allocate-some r rs remaining ms ts m e = ground arith

  pub allocate-others :
      (rs : List ℕ) (remaining : ℕ) (ms : List Message) (ts : List TruncationMetadata) (i : ℕ)
      → mem i rs ≡ false
      → get_elem? (allocate l rs remaining ms ts).0 i ≡ get_elem? ms i
  allocate-others [] remaining ms ts i h = unfold allocate in refl
  allocate-others (r ∷ rs) remaining ms ts i h = elim (Option-cases (get_elem? ms r)) [
    | inl e ↦
        rw (allocate-none r rs remaining ms ts e)
          (allocate-others rs remaining ms ts i (ground arith))
    | inr (m, e) ↦ rw (allocate-some r rs remaining ms ts m e) (
        allocate-others rs (remaining - given m remaining rs)
          (set ms r (cut l m (given m remaining rs))) (note l m (given m remaining rs) ts) i
          (ground arith)
        ∙ get_elem?-set_ne ms r i (cut l m (given m remaining rs)) (λ q. ground arith))
  ]

  at_refs-set :
      (ms : List Message) (r : ℕ) (m : Message) (rs : List ℕ)
      → mem r rs ≡ false
      → at_refs (set ms r m) rs ≡ at_refs ms rs
  at_refs-set ms r m [] h = refl
  at_refs-set ms r m (x ∷ rs) h =
      let here = get_elem?-set_ne ms r x m (λ e. ground arith) in
      let there = at_refs-set ms r m rs (ground arith) in cc

  IsValidRef-set :
      (ms : List Message) (r : ℕ) (m : Message) (rs : List ℕ)
      → mem r rs ≡ false
      → All (IsValidRef ms) rs
      → All (IsValidRef (set ms r m)) rs
  IsValidRef-set ms r m [] h v = tt
  IsValidRef-set ms r m (x ∷ rs) h v = (
    rw (get_elem?-set_ne ms r x m (λ e. ground arith)) v.0,
    IsValidRef-set ms r m rs (ground arith) v.1,
  )

  length-needs : (ms : List Message) (rs : List ℕ) → length (map need (at_refs ms rs)) ≡ length rs
  length-needs ms [] = refl
  length-needs ms (r ∷ rs) = ap suc (length-needs ms rs)

  cut_all-cons :
      (r : ℕ) (rs : List ℕ) (remaining : ℕ) (ms : List Message) (m : Message)
      → get_elem? ms r ≡ some m
      → cut_all (at_refs ms (r ∷ rs)) (shares (map need (at_refs ms (r ∷ rs))) remaining)
        ≡ some (cut l m (given m remaining rs))
          ∷ cut_all
              (at_refs ms rs)
              (shares (map need (at_refs ms rs)) (remaining - given m remaining rs))
  unfolding shares
  cut_all-cons r rs remaining ms m e = rw (e, length-needs ms rs)

  -- The loop gives each reference its share, and cuts its message to it.
  pub allocate-cut_all :
      (rs : List ℕ) (remaining : ℕ) (ms : List Message) (ts : List TruncationMetadata)
      → IsDistinct rs
      → All (IsValidRef ms) rs
      → at_refs (allocate l rs remaining ms ts).0 rs
        ≡ cut_all (at_refs ms rs) (shares (map need (at_refs ms rs)) remaining)
  allocate-cut_all [] remaining ms ts d v = unfold allocate shares in refl
  allocate-cut_all (r ∷ rs) remaining ms ts d v = elim (Option-cases (get_elem? ms r)) [
    | inl e ↦ absurd (ground arith)
    | inr (m, e) ↦
        let c = cut l m (given m remaining rs) in
        let ms' = set ms r c in
        let ts' = note l m (given m remaining rs) ts in
        let rest =
          allocate-cut_all rs (remaining - given m remaining rs) ms' ts' d.1
            (IsValidRef-set ms r c rs d.0 v.1) in
        let here =
          allocate-others rs (remaining - given m remaining rs) ms' ts' r d.0
          ∙ get_elem?-set_self ms r m c e in
        ap (λ (w : List Message × List TruncationMetadata). at_refs w.0 (r ∷ rs))
          (allocate-some r rs remaining ms ts m e)
        ∙ ap₂ {C = List (Option Message)} (λ x xs. x ∷ xs) here
            (rest
              ∙ ap
                  (λ (o : List (Option Message)).
                    cut_all o (shares (map need o) (remaining - given m remaining rs)))
                  (at_refs-set ms r c rs d.0))
        ∙ sym (cut_all-cons r rs remaining ms m e)
  ]
