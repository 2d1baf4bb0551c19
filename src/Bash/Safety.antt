-- ===== src/Bash/Safety.antt =====
-- When `validate_command` allows, denies or asks: its outcome, described by the lists alone.
use canis.Prelude.{
  ◌≡◌, ◌≢◌, ◌∙◌, ◌↔◌, refl, Bool, true, false, ◌&&◌, not, List, [], ◌∷◌, ◌++◌, arith, Bool-cases,
  inl, inr, if◌then◌else◌, any, all, is_some-find, Text, contains,
}
use canis.Bash.Match.{Unicode, match_prefix}
use canis.Bash.Segment.{
  ValidationStatus, allowed, denied, approval_required, is_denied, validate_segment-status,
}
use canis.Bash.Command.{
  Callback, Parse, visits, unparsable, Verdict, stopped, unapproved, check_segments, conclude,
  parse_command_segments, validate_unparsed, validate_parse, validate_command,
}

abbrev pub is_listed : List Text → Text → Bool
is_listed allow_list segment = any (match_prefix segment) allow_list

abbrev is_empty : List Text → Bool
is_empty [] = true
is_empty (t ∷ ts) = false

is_empty-snoc : (ts : List Text) (t : Text) → is_empty (ts ++ t ∷ []) ≡ false
is_empty-snoc [] t = refl
is_empty-snoc (s ∷ ts) t = refl

module _ (u : Unicode) where
  -- What the loop's verdict comes to at the end.
  abbrev final : Bool → Verdict → ValidationStatus
  final compound (stopped result) = result.status
  final compound (unapproved segments) =
      if compound
      then approval_required
      else if is_empty segments
      then allowed
      else approval_required

  -- The outcome of a parsed command, from its segments.
  unfoldable pub parsed_status : Bool → List Text → List Text → List Text → ValidationStatus
  parsed_status compound segments allow_list deny_prefixes =
      if any (λ s. is_denied u s deny_prefixes) segments
      then denied
      else if compound
      then approval_required
      else if all (is_listed allow_list) segments
      then allowed
      else approval_required

  conclude-final :
      (compound : Bool) (suggested allow_list : List Text) (v : Verdict)
      → (conclude u compound suggested allow_list v).status ≡ final compound v
  unfolding conclude
  conclude-final compound suggested allow_list (stopped result) = refl
  conclude-final true suggested allow_list (unapproved []) = refl
  conclude-final true suggested allow_list (unapproved (s ∷ ss)) = refl
  conclude-final false suggested allow_list (unapproved []) = refl
  conclude-final false suggested allow_list (unapproved (s ∷ ss)) = refl

  final-check_segments :
      (compound : Bool) (segments allow_list deny_prefixes so_far : List Text)
      → final compound (check_segments u segments allow_list deny_prefixes so_far) ≡ (
          if any (λ s. is_denied u s deny_prefixes) segments
          then denied
          else if compound
          then approval_required
          else if is_empty so_far && all (is_listed allow_list) segments
          then allowed
          else approval_required)
  unfolding check_segments
  final-check_segments compound [] allow_list deny_prefixes so_far = ground arith
  final-check_segments compound (s ∷ segments) allow_list deny_prefixes so_far = ground (
    arith,
    validate_segment-status u s allow_list deny_prefixes,
    is_empty-snoc so_far s,
    final-check_segments compound segments allow_list deny_prefixes so_far,
    final-check_segments compound segments allow_list deny_prefixes (so_far ++ s ∷ []),
  )

  parsed_lem :
      (vs : List Callback) (command : Text) (suggested allow_list deny_prefixes : List Text)
      → let e = parse_command_segments command vs in
        (validate_parse u (visits vs) command suggested allow_list deny_prefixes).status
        ≡ parsed_status e.contains_compound_command e.segments allow_list deny_prefixes
  unfolding validate_parse parsed_status
  parsed_lem vs command suggested allow_list deny_prefixes =
      let e = parse_command_segments command vs in
      conclude-final e.contains_compound_command suggested allow_list
        (check_segments u e.segments allow_list deny_prefixes [])
      ∙ final-check_segments e.contains_compound_command e.segments allow_list deny_prefixes []

  unparsed-ne-allowed :
      (command : Text) (deny_prefixes : List Text)
      → (validate_unparsed u command deny_prefixes).status ≢ allowed
  unfolding validate_unparsed
  unparsed-ne-allowed command deny_prefixes h = ground arith

  -- Whether a suggested prefix does not occur in the command.
  abbrev pub is_fabricated : Text → List Text → Bool
  is_fabricated command suggested = any (λ prefix. not (contains command prefix)) suggested

  abbrev parse_status : Parse → Text → List Text → List Text → ValidationStatus
  parse_status unparsable command allow_list deny_prefixes =
      (validate_unparsed u command deny_prefixes).status
  parse_status (visits vs) command allow_list deny_prefixes =
      let e = parse_command_segments command vs in
      parsed_status e.contains_compound_command e.segments allow_list deny_prefixes

  validate_parse-status :
      (p : Parse) (command : Text) (suggested allow_list deny_prefixes : List Text)
      → (validate_parse u p command suggested allow_list deny_prefixes).status
        ≡ parse_status p command allow_list deny_prefixes
  validate_parse-status unparsable command suggested allow_list deny_prefixes =
      unfold validate_parse in refl
  validate_parse-status (visits vs) command suggested allow_list deny_prefixes =
      parsed_lem vs command suggested allow_list deny_prefixes

  -- The outcome of every command: a fabricated prefix is denied, and else the parse decides.
  pub validate_command-status :
      (parse : Text → Parse) (command : Text) (suggested allow_list deny_prefixes : List Text)
      → (validate_command u parse command suggested allow_list deny_prefixes).status ≡ (
          if is_fabricated command suggested
          then denied
          else parse_status (parse command) command allow_list deny_prefixes)
  unfolding validate_command
  validate_command-status parse command suggested allow_list deny_prefixes = ground (
    arith,
    is_some-find (λ (prefix : Text). not (contains command prefix)) suggested,
    validate_parse-status (parse command) command suggested allow_list deny_prefixes,
  )

  -- What an allowed command has passed: it parses, into plain segments, of which none is denied
  -- and every one is on the allow list.
  abbrev pub IsCleared : Parse → Text → List Text → List Text → Type 0
  IsCleared p command allow_list deny_prefixes =
      (vs : List Callback) × (p ≡ visits vs)
      × ((parse_command_segments command vs).contains_compound_command ≡ false)
      × (any (λ s. is_denied u s deny_prefixes) (parse_command_segments command vs).segments
          ≡ false)
      × (all (is_listed allow_list) (parse_command_segments command vs).segments ≡ true)

  parse_status-IsCleared :
      (p : Parse) (command : Text) (allow_list deny_prefixes : List Text)
      → parse_status p command allow_list deny_prefixes ≡ allowed
      → IsCleared p command allow_list deny_prefixes
  unfolding parsed_status
  parse_status-IsCleared unparsable command allow_list deny_prefixes h =
      absurd (unparsed-ne-allowed command deny_prefixes h)
  parse_status-IsCleared (visits vs) command allow_list deny_prefixes h =
      (vs, refl, ground arith, ground arith, ground arith)

  IsCleared-parse_status :
      (p : Parse) (command : Text) (allow_list deny_prefixes : List Text)
      → IsCleared p command allow_list deny_prefixes
      → parse_status p command allow_list deny_prefixes ≡ allowed
  unfolding parsed_status
  IsCleared-parse_status p command allow_list deny_prefixes (vs, e, plain, fine, listed) =
      rw e (ground arith)

  -- A command is allowed exactly when every suggested prefix occurs in it, bashlex parses it, it
  -- has no compound statement, no segment of it is denied, and each is on the allow list.
  pub validate_command-allowed_iff :
      (parse : Text → Parse) (command : Text) (suggested allow_list deny_prefixes : List Text)
      → ((validate_command u parse command suggested allow_list deny_prefixes).status ≡ allowed) ↔ (
          (is_fabricated command suggested ≡ false)
          × IsCleared (parse command) command allow_list deny_prefixes)
  validate_command-allowed_iff parse command suggested allow_list deny_prefixes =
      rw (validate_command-status parse command suggested allow_list deny_prefixes)
        (elim (Bool-cases (is_fabricated command suggested)) [
          | inl bad ↦ rw bad (λ h. cc, λ h. cc (h.0))
          | inr good ↦ rw good (
            λ h. (refl, parse_status-IsCleared (parse command) command allow_list deny_prefixes h),
            λ h. IsCleared-parse_status (parse command) command allow_list deny_prefixes h.1,
          )
        ])

  parse_status-denied :
      (p : Parse) (command : Text) (allow_list other deny_prefixes : List Text)
      → parse_status p command allow_list deny_prefixes ≡ denied
      → parse_status p command other deny_prefixes ≡ denied
  unfolding parsed_status
  parse_status-denied unparsable command allow_list other deny_prefixes h = h
  parse_status-denied (visits vs) command allow_list other deny_prefixes h = ground arith

  -- What is denied under one allow list is denied under every allow list: no approved prefix
  -- overrides a block, the deny list or a fabricated prefix.
  pub denied_any_allow_list :
      (parse : Text → Parse) (command : Text) (suggested allow_list other deny_prefixes : List Text)
      → (validate_command u parse command suggested allow_list deny_prefixes).status ≡ denied
      → (validate_command u parse command suggested other deny_prefixes).status ≡ denied
  denied_any_allow_list parse command suggested allow_list other deny_prefixes h = ground (
    arith,
    validate_command-status parse command suggested allow_list deny_prefixes,
    validate_command-status parse command suggested other deny_prefixes,
    parse_status-denied (parse command) command allow_list other deny_prefixes,
  )
