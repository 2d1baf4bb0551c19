-- ===== src/Bash/Command.antt =====
-- `validate_command` of validation.py, over the callbacks that the shell parser makes.
use canis.Prelude.{
  ℕ, Bool, true, false, ◌&&◌, ◌||◌, not, ◌==◌, Option, none, some, List, [], ◌∷◌, ◌++◌, map,
  if◌then◌else◌, any, find, keep_if, take, drop, Text, codes, strip, contains, join, elem,
}
use canis.Bash.Match.{Unicode, match_prefix}
use canis.Bash.Lists.{hardcoded_blocks}
use canis.Bash.Segment.{
  ValidationStatus, allowed, denied, approval_required, hardcoded_block, deny_list,
  prefix_not_in_command, ValidationResult, allowed_result, denied_result, hardcoded_message,
  deny_list_message, truthy, validate_segment,
}

-- A callback of bashlex's `nodevisitor`: a simple command with `node.pos`, or a compound.
pub data Callback : Type 0 where
  visitcommand : ℕ → ℕ → Callback
  visitcompound : Callback

-- What `bashlex.parse` and the traversal of its parts make of a command: the callbacks in order,
-- or a `ParsingError` or `NotImplementedError`.
pub data Parse : Type 0 where
  visits : List Callback → Parse
  unparsable : Parse

pub record CommandSegmentExtractor : Type 0 where
  pub segments : List Text
  pub contains_compound_command : Bool

-- `visitcommand` and `visitcompound`
unfoldable pub on_visit : Text → Callback → CommandSegmentExtractor → CommandSegmentExtractor
on_visit command (visitcommand start stop) e = record e {
  segments = e.segments ++ strip (drop start (take stop command)) ∷ [];
}
on_visit command visitcompound e = record e { contains_compound_command = true }

extract : Text → List Callback → CommandSegmentExtractor → CommandSegmentExtractor
unfolding on_visit
extract command [] e = e
extract command (v ∷ vs) e = extract command vs (on_visit command v e)

unfoldable pub parse_command_segments : Text → List Callback → CommandSegmentExtractor
unfolding extract
parse_command_segments command vs =
    extract command vs (record { segments = []; contains_compound_command = false })

-- `list(dict.fromkeys(texts))`: the first of each, in order.
unfoldable pub from_keys : List Text → List Text → List Text
from_keys seen [] = []
from_keys seen (t ∷ ts) =
    let rest = from_keys (t ∷ seen) ts in if elem t seen then rest else t ∷ rest

-- The loop over the segments: the first denial, or the segments that are not allowed.
pub data Verdict : Type 0 where
  stopped : ValidationResult → Verdict
  unapproved : List Text → Verdict

-- What a segment's result does to the loop, given the rest of it for each list so far.
abbrev pub judge :
    ValidationStatus → ValidationResult → Text → List Text → (List Text → Verdict) → Verdict
judge denied result segment so_far rest = stopped result
judge approval_required result segment so_far rest = rest (so_far ++ segment ∷ [])
judge allowed result segment so_far rest = rest so_far

-- The suggested prefixes that no entry of the allow list matches, once each.
unfoldable pub new_prefixes : List Text → List Text → List Text
unfolding from_keys
new_prefixes suggested_prefixes allow_list = from_keys [] (
    keep_if (λ prefix. not (any (λ allowed. match_prefix prefix allowed) allow_list))
      suggested_prefixes)

module _ (u : Unicode) where
  -- Whether a `\b` of the regular expression holds between two characters, or at an end.
  unfoldable pub word_boundary : Option ℕ → Option ℕ → Bool
  word_boundary none none = false
  word_boundary none (some c) = u.is_word c
  word_boundary (some c) none = u.is_word c
  word_boundary (some c) (some d) = if u.is_word c then not (u.is_word d) else u.is_word d

  abbrev head? : Text → Option ℕ
  head? [] = none
  head? (c ∷ s) = some c

  -- the literal `pattern` at this place, and what stands before the end of it
  match_here : Option ℕ → Text → Text → Bool
  match_here before [] s = word_boundary before (head? s)
  match_here before (p ∷ pattern) [] = false
  match_here before (p ∷ pattern) (c ∷ s) = (p == c) && match_here (some c) pattern s

  -- `re.search(rf"\b{re.escape(pattern)}\b", s)`, with the character before `s`
  unfoldable pub search_word : Option ℕ → Text → Text → Bool
  unfolding word_boundary match_here
  search_word before pattern [] = word_boundary before none && match_here before pattern []
  search_word before pattern (c ∷ s) =
      word_boundary before (some c) && match_here before pattern (c ∷ s)
      || search_word (some c) pattern s

  unfoldable pub check_blocked_in_raw_command : Text → List Text → Option Text
  check_blocked_in_raw_command command blocked_list =
      find (λ pattern. search_word none (u.lower pattern) (u.lower command)) blocked_list

  -- The outcome for a command that bashlex refuses: never allowed.
  unparsed_deny : Option Text → ValidationResult
  unparsed_deny (some pattern) = denied_result deny_list (deny_list_message pattern)
  unparsed_deny none = record {
    status = approval_required;
    deny_reason = none;
    message = some (codes "Command contains complex syntax which requires approval.");
    prefixes_needing_approval = some [];
  }

  unparsed_blocks : Option Text → Text → List Text → ValidationResult
  unparsed_blocks (some blocked) command deny_prefixes =
      denied_result hardcoded_block (hardcoded_message blocked)
  unparsed_blocks none command deny_prefixes =
      unparsed_deny (truthy (check_blocked_in_raw_command command deny_prefixes))

  unfoldable pub validate_unparsed : Text → List Text → ValidationResult
  unfolding unparsed_deny unparsed_blocks truthy check_blocked_in_raw_command
  validate_unparsed command deny_prefixes =
      unparsed_blocks (truthy (check_blocked_in_raw_command command hardcoded_blocks)) command
        deny_prefixes

  unfoldable pub check_segments : List Text → List Text → List Text → List Text → Verdict
  check_segments [] allow_list deny_prefixes so_far = unapproved so_far
  check_segments (segment ∷ segments) allow_list deny_prefixes so_far =
      let result = validate_segment u segment allow_list deny_prefixes in
      judge result.status result segment so_far (check_segments segments allow_list deny_prefixes)

  -- After the loop: a compound command, then segments that are not allowed, then success.
  unfoldable pub conclude : Bool → List Text → List Text → Verdict → ValidationResult
  conclude compound suggested_prefixes allow_list (stopped result) = result
  conclude true suggested_prefixes allow_list (unapproved segments) = record {
    status = approval_required;
    deny_reason = none;
    message = some (codes "Contains compound statements (for/while/if/etc).");
    prefixes_needing_approval = some [];
  }
  conclude false suggested_prefixes allow_list (unapproved []) = allowed_result
  conclude false suggested_prefixes allow_list (unapproved (s ∷ ss)) = record {
    status = approval_required;
    deny_reason = none;
    message =
        some (codes "Segment(s) not in allow list: " ++ join (codes ", ") (map u.repr (s ∷ ss)));
    prefixes_needing_approval = some (new_prefixes suggested_prefixes allow_list);
  }

  unfoldable pub validate_parse :
      Parse → Text → List Text → List Text → List Text → ValidationResult
  unfolding validate_unparsed check_segments conclude parse_command_segments
  validate_parse unparsable command suggested_prefixes allow_list deny_prefixes =
      validate_unparsed command deny_prefixes
  validate_parse (visits vs) command suggested_prefixes allow_list deny_prefixes =
      let e = parse_command_segments command vs in
      conclude e.contains_compound_command suggested_prefixes allow_list
        (check_segments e.segments allow_list deny_prefixes [])

  check_prefixes : Option Text → (Text → ValidationResult) → ValidationResult → ValidationResult
  check_prefixes (some prefix) refuse go_on = refuse prefix
  check_prefixes none refuse go_on = go_on

  -- With `parse` for bashlex.
  unfoldable pub validate_command :
      (Text → Parse) → Text → List Text → List Text → List Text → ValidationResult
  unfolding validate_parse check_prefixes
  validate_command parse command suggested_prefixes allow_list deny_prefixes =
      check_prefixes (find (λ prefix. not (contains command prefix)) suggested_prefixes)
        (λ prefix.
          denied_result prefix_not_in_command
            (codes "Suggested prefix '" ++ (prefix ++ codes "' does not appear in the command.")))
        (validate_parse (parse command) command suggested_prefixes allow_list deny_prefixes)
