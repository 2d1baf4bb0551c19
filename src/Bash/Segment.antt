-- ===== src/Bash/Segment.antt =====
-- One command segment: the hard-coded blocks, then the deny list, then the allow list
-- (validation.py).
use canis.Prelude.{
  ◌≡◌, Bool, ◌||◌, Option, none, some, List, [], ◌∷◌, ◌++◌, arith, if◌then◌else◌, any, find,
  is_some-find, Text, codes,
}
use canis.Bash.Match.{Unicode, match_prefix, match_prefix_for_deny}
use canis.Bash.Lists.{hardcoded_blocks}

pub data ValidationStatus : Type 0 where
  allowed denied approval_required : ValidationStatus

pub data DenyReason : Type 0 where
  hardcoded_block deny_list prefix_not_in_command : DenyReason

pub record ValidationResult : Type 0 where
  pub status : ValidationStatus
  pub deny_reason : Option DenyReason
  pub message : Option Text
  pub prefixes_needing_approval : Option (List Text)

-- `ValidationResult(status=ALLOWED)`
abbrev pub allowed_result : ValidationResult
allowed_result = record {
  status = allowed;
  deny_reason = none;
  message = none;
  prefixes_needing_approval = none;
}

-- `ValidationResult(status=DENIED, deny_reason=…, message=…)`
abbrev pub denied_result : DenyReason → Text → ValidationResult
denied_result reason message = record {
  status = denied;
  deny_reason = some reason;
  message = some message;
  prefixes_needing_approval = none;
}

abbrev pub hardcoded_message : Text → Text
hardcoded_message blocked =
    codes "Command contains '"
    ++ (blocked
        ++ codes "' which is permanently blocked for security reasons and cannot be overridden.")

abbrev pub deny_list_message : Text → Text
deny_list_message pattern =
    codes "Command matches deny list pattern '"
    ++ (pattern ++ codes "'. This command is blocked by configuration.")

-- A found pattern denies if it is a true value: `if blocked:` passes over an empty text.
unfoldable pub truthy : Option Text → Option Text
truthy none = none
truthy (some []) = none
truthy (some (c ∷ s)) = some (c ∷ s)

module _ (u : Unicode) where
  unfoldable pub check_hardcoded_blocks : Text → Option Text
  check_hardcoded_blocks segment =
      find (λ block. match_prefix_for_deny (u.lower segment) block) hardcoded_blocks

  -- The last two steps: the allow list, and else the user.
  unfoldable pub validate_allow : Text → List Text → ValidationResult
  validate_allow segment allow_list =
      if any (match_prefix segment) allow_list then allowed_result else record {
        status = approval_required;
        deny_reason = none;
        message =
            some (codes "Command segment '" ++ (segment ++ codes "' is not in the allow list."));
        prefixes_needing_approval = none;
      }

  validate_deny : Option Text → Text → List Text → ValidationResult
  validate_deny (some deny_prefix) segment allow_list =
      denied_result deny_list (deny_list_message deny_prefix)
  validate_deny none segment allow_list = validate_allow segment allow_list

  validate_blocks : Option Text → Text → List Text → List Text → ValidationResult
  validate_blocks (some blocked) segment allow_list deny_prefixes =
      denied_result hardcoded_block (hardcoded_message blocked)
  validate_blocks none segment allow_list deny_prefixes =
      validate_deny (find (match_prefix_for_deny segment) deny_prefixes) segment allow_list

  unfoldable pub validate_segment : Text → List Text → List Text → ValidationResult
  unfolding truthy check_hardcoded_blocks validate_allow validate_deny validate_blocks
  validate_segment segment allow_list deny_prefixes =
      validate_blocks (truthy (check_hardcoded_blocks segment)) segment allow_list deny_prefixes

  -- A segment is blocked for good, or by the configuration.
  unfoldable pub is_denied : Text → List Text → Bool
  is_denied segment deny_prefixes =
      any (match_prefix_for_deny (u.lower segment)) hardcoded_blocks
      || any (match_prefix_for_deny segment) deny_prefixes

  -- The three outcomes, each decided by the lists alone: a deny wins over an allow.
  pub validate_segment-status :
      (segment : Text) (allow_list deny_prefixes : List Text)
      → (validate_segment segment allow_list deny_prefixes).status ≡ (
          if is_denied segment deny_prefixes
          then denied
          else if any (match_prefix segment) allow_list
          then allowed
          else approval_required)
  unfolding validate_segment is_denied
  validate_segment-status segment allow_list deny_prefixes =
      ground (arith, is_some-find (match_prefix_for_deny segment) deny_prefixes)
