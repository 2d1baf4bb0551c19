-- ===== src/Bash/Match.antt =====
-- Prefix matching of holmes/plugins/toolsets/bash/validation.py, and its hard-coded blocks.
use canis.Prelude.{
  ℕ, ◌≡◌, refl, ◌↔◌, ◌⊎◌, inl, inr, Bool, true, false, ◌||◌, Option, none, some, [], ◌∷◌, ◌++◌,
  arith, ltb, ◌==◌, ||_iff, if◌then◌else◌, not, Bool-cases, length, get_elem?, length-append, Text,
  codes, is_space, strip, startswith, startswith_iff, startswith-append,
}

-- What the sources take from Python's tables of Unicode, and not from their own text:
-- `str.lower`, the word characters of `\b`, and `repr` of a text.
pub record Unicode : Type 0 where
  pub lower : Text → Text
  pub is_word : ℕ → Bool
  pub repr : Text → Text

-- `char.isspace() or char == "/"`
unfoldable pub is_boundary_char : ℕ → Bool
is_boundary_char c = is_space c || c == b'/'

-- The character after the prefix, if there is one, ends a word.
unfoldable pub ends_word : Option ℕ → Bool
ends_word none = true
ends_word (some c) = is_boundary_char c

-- `check_at_boundary`, and the body of `match_prefix` after its two strips
unfoldable pub check_at_boundary : Text → Text → Bool
unfolding ends_word
check_at_boundary seg pref =
    if not (startswith seg pref)
    then false
    else if ltb (length pref) (length seg)
    then ends_word (get_elem? seg (length pref))
    else true

unfoldable pub match_prefix : Text → Text → Bool
unfolding check_at_boundary
match_prefix segment prefix = check_at_boundary (strip segment) (strip prefix)

-- the singular, or the plural with an `s`
unfoldable pub match_prefix_for_deny : Text → Text → Bool
unfolding check_at_boundary
match_prefix_for_deny segment prefix =
    check_at_boundary (strip segment) (strip prefix)
    || check_at_boundary (strip segment) (strip prefix ++ codes "s")

-- A rest that does not go on with the word before it.
abbrev pub IsBoundary : Text → Type 0
IsBoundary [] = Unit {0}
IsBoundary (c ∷ rest) = (is_space c ≡ true) ⊎ (c ≡ b'/')

-- `seg` is `pref` as a whole word, with anything after it.
abbrev pub BeginsWith : Text → Text → Type 0
BeginsWith seg pref = (rest : Text) × (seg ≡ pref ++ rest) × IsBoundary rest

get_elem?-append_length : (p rest : Text) → get_elem? (p ++ rest) (length p) ≡ get_elem? rest 0
get_elem?-append_length [] rest = refl
get_elem?-append_length (a ∷ p) rest = get_elem?-append_length p rest

check_append-nil : (pref : Text) → check_at_boundary (pref ++ []) pref ≡ true
unfolding check_at_boundary
check_append-nil pref = ground (arith, startswith-append pref [], length-append pref [])

check_append-cons :
    (pref rest : Text) (c : ℕ) → check_at_boundary (pref ++ c ∷ rest) pref ≡ is_boundary_char c
unfolding check_at_boundary
check_append-cons pref rest c = ground (
  arith,
  startswith-append pref (c ∷ rest),
  length-append pref (c ∷ rest),
  get_elem?-append_length pref (c ∷ rest),
)

is_boundary_char_iff : (c : ℕ) → (is_boundary_char c ≡ true) ↔ ((is_space c ≡ true) ⊎ (c ≡ b'/'))
unfolding is_boundary_char
is_boundary_char_iff c = (
  λ h. elim (Bool-cases (is_space c)) [ inl e ↦ inl e | inr e ↦ inr (ground (arith)) ],
  λ h. ground arith,
)

check_append : (pref rest : Text) → (check_at_boundary (pref ++ rest) pref ≡ true) ↔ IsBoundary rest
check_append pref [] = (λ h. tt, λ h. check_append-nil pref)
check_append pref (c ∷ rest) = rw (check_append-cons pref rest c) (is_boundary_char_iff c)

check_startswith :
    (seg pref : Text) → check_at_boundary seg pref ≡ true → startswith seg pref ≡ true
unfolding check_at_boundary
check_startswith seg pref h = ground arith

-- The check finds exactly the texts that begin with the prefix as a whole word.
pub check_at_boundary_iff :
    (seg pref : Text) → (check_at_boundary seg pref ≡ true) ↔ BeginsWith seg pref
check_at_boundary_iff seg pref = (
  λ h.
      let (rest, e) = (startswith_iff seg pref).0 (check_startswith seg pref h) in
      (rest, e, (check_append pref rest).0 (rw e at h)),
  λ (rest, e, b). rw e ((check_append pref rest).1 b),
)

-- An allow prefix matches exactly the segments whose trimmed text begins with it as whole words.
pub match_prefix_iff :
    (segment prefix : Text)
    → (match_prefix segment prefix ≡ true) ↔ BeginsWith (strip segment) (strip prefix)
unfolding match_prefix
match_prefix_iff segment prefix = check_at_boundary_iff (strip segment) (strip prefix)

-- A deny prefix matches exactly those, and the same with an `s` added to the prefix.
pub match_prefix_for_deny_iff :
    (segment prefix : Text)
    → (match_prefix_for_deny segment prefix ≡ true) ↔ (
        BeginsWith (strip segment) (strip prefix)
        ⊎ BeginsWith (strip segment) (strip prefix ++ codes "s"))
unfolding match_prefix_for_deny
match_prefix_for_deny_iff segment prefix =
    let singular = check_at_boundary_iff (strip segment) (strip prefix) in
    let plural = check_at_boundary_iff (strip segment) (strip prefix ++ codes "s") in
    let either = ||_iff (check_at_boundary (strip segment) (strip prefix)) _ in
    (
      λ h. elim (either.0 h) [ inl e ↦ inl (singular.0 e) | inr e ↦ inr (plural.0 e) ],
      λ h. elim h [ inl e ↦ either.1 (inl (singular.1 e)) | inr e ↦ either.1 (inr (plural.1 e)) ],
    )

-- Deny matching is at least as strict: it catches all that allow matching lets through.
pub match_prefix-deny :
    (segment prefix : Text)
    → match_prefix segment prefix ≡ true
    → match_prefix_for_deny segment prefix ≡ true
unfolding match_prefix match_prefix_for_deny
match_prefix-deny segment prefix h = rw h
