-- ===== src/Bash/Tests.antt =====
-- Runs of the bash tool, and its theorems at concrete inputs.
use canis.Prelude.{
  ℕ, ◌≡◌, refl, ◌↔◌, Bool, true, false, ◌&&◌, ◌||◌, none, some, List, [], ◌∷◌, ◌++◌, map, leb, ◌==◌,
  ◌+◌, if◌then◌else◌, length, Text, codes, pos, ◌≢◌, ◌⊎◌, contains, strip, is_space, sorted_set,
}
use canis.Tools.Invoke.{Host, ToolInvokeContext, invoke}
use canis.Bash.Match.{
  Unicode, is_boundary_char, match_prefix, match_prefix_for_deny, match_prefix_for_deny_iff,
  BeginsWith,
}
use canis.Bash.Lists.{default_config, core_allow_list}
use canis.Bash.Segment.{allowed, denied, approval_required, validate_segment}
use canis.Bash.Command.{Parse, visits, visitcommand, visitcompound, unparsable, validate_command}
use canis.Bash.Safety.{
  is_fabricated, IsCleared, validate_command-allowed_iff, denied_any_allow_list,
}
use canis.Bash.Tool.{BashParams, BashHost, BashState, validate, bash_tool}
use canis.Bash.Runs.{the_tool, invoke_unapproved}

abbrev lower_ascii : Text → Text
lower_ascii = map (λ c. if leb b'A' c && leb c b'Z' then c + 32 else c)

abbrev ascii : Unicode
ascii = record {
  lower = lower_ascii;
  is_word = λ c.
      leb b'a' c && leb c b'z' || leb b'A' c && leb c b'Z' || leb b'0' c && leb c b'9' || c == b'_';
  repr = λ s. codes "'" ++ (s ++ codes "'");
}

-- A parser for the tests: a text with `(` is not parsed, one that begins with `f` is a `for` loop
-- over the command from its second character on, and any other is one command.
abbrev toy_parse : Text → Parse
toy_parse command =
    if elem_char b'(' command
    then unparsable
    else if starts_f command
    then visits (visitcompound ∷ visitcommand 1 (length command) ∷ [])
    else visits (visitcommand 0 (length command) ∷ [])
  where
    elem_char : ℕ → Text → Bool
    elem_char c [] = false
    elem_char c (d ∷ s) = c == d || elem_char c s

    starts_f : Text → Bool
    starts_f [] = false
    starts_f (c ∷ s) = c == b'f'

-- The world is the list of the commands that ran.
abbrev toy : BashHost (List Text)
toy = record {
  unicode = ascii;
  parse = toy_parse;
  show_nat = λ n. codes "30";
  show_int = λ n. codes "1";
  cli_prefixes = λ w. [];
  execute = λ command timeout w. (
    some (record { stdout = codes "out"; return_code = some (pos 0); timed_out = false }),
    command ∷ w,
  );
}

abbrev host : Host
host = record { fnmatch = λ s p. false; dumps = λ compact v. codes "{}" }

abbrev start : BashState (List Text)
start = record { config = some default_config; world = [] }

abbrev call : Text → List Text → BashParams
call command prefixes = record {
  command = some command;
  suggested_prefixes = some prefixes;
  timeout = none;
}

abbrev unapproved : ToolInvokeContext
unapproved = record { user_approved = false; session_approved_prefixes = [] }

abbrev approved : ToolInvokeContext
approved = record { user_approved = true; session_approved_prefixes = [] }

abbrev removal : BashParams
removal = call (codes "rm -rf x") (codes "rm" ∷ [])

-- The user's approval runs the command, an allowed command runs without it.
runs :
    ((invoke host (the_tool toy host [] [] [] none) removal approved start).2.world
      ≡ codes "rm -rf x" ∷ [])
    × ((invoke host
          (the_tool toy host [] [] [] none)
          (call (codes "kubectl get pods") (codes "kubectl get" ∷ []))
          unapproved
          start).2.world
        ≡ codes "kubectl get pods" ∷ [])
unfolding invoke bash_tool validate_command validate_segment match_prefix match_prefix_for_deny
    is_boundary_char contains strip is_space sorted_set core_allow_list
runs = (refl, refl)

waits-ne-allowed : approval_required ≢ allowed
waits-ne-allowed e = cc

invoke_unapproved_example :
    (invoke host (the_tool toy host [] [] [] none) removal unapproved start).2.world ≡ []
unfolding validate validate_command validate_segment match_prefix match_prefix_for_deny
    is_boundary_char contains strip is_space sorted_set core_allow_list
invoke_unapproved_example =
    invoke_unapproved toy host [] [] [] none removal unapproved start refl waits-ne-allowed

validate_command-allowed_iff_example :
    ((validate_command ascii toy_parse
        (codes "grep x")
        (codes "grep" ∷ [])
        (codes "grep" ∷ [])
        []).status
      ≡ allowed)
    ↔ ((is_fabricated ascii (codes "grep x") (codes "grep" ∷ []) ≡ false)
        × IsCleared ascii (toy_parse (codes "grep x")) (codes "grep x") (codes "grep" ∷ []) [])
validate_command-allowed_iff_example =
    validate_command-allowed_iff ascii toy_parse (codes "grep x") (codes "grep" ∷ [])
      (codes "grep" ∷ []) []

-- An allow list that names `sudo` does not let it through.
denied_any_allow_list_example :
    (validate_command ascii toy_parse
      (codes "sudo ls")
      (codes "sudo" ∷ [])
      (codes "sudo" ∷ [])
      []).status
    ≡ denied
unfolding validate_command validate_segment match_prefix match_prefix_for_deny is_boundary_char
    contains strip is_space
denied_any_allow_list_example =
    denied_any_allow_list ascii toy_parse (codes "sudo ls") (codes "sudo" ∷ []) []
      (codes "sudo" ∷ []) [] refl

-- A `for` loop over an allowed command.
abbrev loop : BashParams
loop = call (codes "for grep") (codes "grep" ∷ [])

match_prefix_for_deny_iff_example :
    (match_prefix_for_deny (codes "kubectl get secrets/a") (codes "kubectl get secret") ≡ true) ↔ (
      BeginsWith (strip (codes "kubectl get secrets/a")) (strip (codes "kubectl get secret"))
      ⊎ BeginsWith
          (strip (codes "kubectl get secrets/a"))
          (strip (codes "kubectl get secret") ++ codes "s"))
match_prefix_for_deny_iff_example =
    match_prefix_for_deny_iff (codes "kubectl get secrets/a") (codes "kubectl get secret")
