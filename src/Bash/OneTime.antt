-- ===== src/Bash/OneTime.antt =====
-- The user's approval of a command that is compound, or that bashlex does not parse: the answer
-- that asks for it has emptied the suggested prefixes, and the approved call is refused for that.
use canis.Prelude.{◌≡◌, true, some, [], Text, codes, ◌++◌}
use canis.Tools.Invoke.{ApprovalRequirement}
use canis.Bash.Segment.{ValidationResult}
use canis.Bash.Command.{Parse, visits, unparsable, parse_command_segments}
use canis.Bash.Tool.{BashHost, show_message}

-- The commands whose approval holds for one time.
abbrev pub IsOneTime : Text → Parse → Type 0
IsOneTime command unparsable = Unit {0}
IsOneTime command (visits vs) = (parse_command_segments command vs).contains_compound_command ≡ true

module _ {W : Type 0} (h : BashHost W) where
  abbrev pub one_time_requirement : ValidationResult → ApprovalRequirement
  one_time_requirement v = record {
    needs_approval = true;
    reason = codes "Command requires approval. " ++ show_message v.message;
    prefixes_to_save = some [];
  }
