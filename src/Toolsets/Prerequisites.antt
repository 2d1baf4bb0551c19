-- ===== src/Toolsets/Prerequisites.antt =====
-- The prerequisites of a toolset and its lazy initialization (`Toolset` of holmes/core/tools.py).
use canis.Prelude.{
  ℕ, Bool, true, false, not, ◌&&◌, Option, none, some, List, [], ◌∷◌, ◌++◌, ltb, if◌then◌else◌,
  Text, codes, contains,
}
use canis.Tools.Result.{Outcome, returned, raised}
use canis.Toolsets.Logging.{ToolsetStatusEnum, enabled, failed, is_enabled}

-- What a command does: it exits with 0 and prints, or exits with another code.
pub data Completed : Type 0 where
  exited : Text → Completed
  called_process_error : Text → Completed

-- A callable is a function of the state of the world that may raise.
pub data Prerequisite (W : Type 0) : Type 0 where
  static : Bool → Text → Prerequisite W
  environment : List Text → Prerequisite W
  callable : (W → Outcome (Bool × Text) × W) → Prerequisite W
  command : Text → Option Text → Prerequisite W

-- `os.path.expandvars`, the names in `os.environ`, and `subprocess.run`.
pub record Machine (W : Type 0) : Type 0 where
  pub expandvars : Text → Text
  pub is_set : Text → Bool
  pub run : Text → W → Completed × W

-- The fields of a toolset that its checks write.
pub record ToolsetState : Type 0 where
  pub status : ToolsetStatusEnum
  pub error_text : Option Text
  pub lazy_init : Bool
  pub initialized : Bool

-- `_prereq_priority`
abbrev pub prereq_priority : {W : Type 0} → Prerequisite W → ℕ
prereq_priority (static ok reason) = 0
prereq_priority (environment names) = 1
prereq_priority (callable f) = 2
prereq_priority (command text expected) = 3

abbrev pub is_fast : {W : Type 0} → Prerequisite W → Bool
is_fast (static ok reason) = true
is_fast (environment names) = true
is_fast (callable f) = false
is_fast (command text expected) = false

-- `sorted(prerequisites, key=_prereq_priority)`, which is stable
unfoldable pub insert_prereq :
    {W : Type 0} → Prerequisite W → List (Prerequisite W) → List (Prerequisite W)
insert_prereq p [] = p ∷ []
insert_prereq p (q ∷ qs) =
    let rest = insert_prereq p qs in
    if ltb (prereq_priority q) (prereq_priority p) then q ∷ rest else p ∷ q ∷ qs

unfoldable pub sorted_prereqs : {W : Type 0} → List (Prerequisite W) → List (Prerequisite W)
unfolding insert_prereq
sorted_prereqs [] = []
sorted_prereqs (p ∷ ps) = insert_prereq p (sorted_prereqs ps)

-- `self.status = FAILED; self.error = …`
abbrev pub fail : Text → ToolsetState → ToolsetState
fail message s = record s { status = failed; error_text = some message }

module _ {W : Type 0} (m : Machine W) where
  unfoldable pub check_env : List Text → ToolsetState → ToolsetState
  check_env [] s = s
  check_env (name ∷ names) s = check_env names (
      if m.is_set name
      then s
      else fail (codes "Environment variable " ++ (name ++ codes " was not set")) s)

  unfoldable pub check_static : Bool → Text → ToolsetState → ToolsetState
  check_static true reason s = s
  check_static false reason s = fail reason s

  -- `if error_message: self.error = …`
  abbrev pub note_error : Text → ToolsetState → ToolsetState
  note_error [] s = s
  note_error (c ∷ message) s = record s { error_text = some (c ∷ message) }

  unfoldable pub finish_callable : Outcome (Bool × Text) → ToolsetState → ToolsetState
  finish_callable (raised e) s = fail (codes "Prerequisite call failed unexpectedly: " ++ e) s
  finish_callable (returned (true, message)) s = note_error message s
  finish_callable (returned (false, message)) s = note_error message (record s { status = failed })

  -- An expected output that is empty is none.
  abbrev pub lacks : Option Text → Text → Bool
  lacks none output = false
  lacks (some []) output = false
  lacks (some (c ∷ expected)) output = not (contains output (c ∷ expected))

  abbrev pub or_empty : Option Text → Text
  or_empty none = []
  or_empty (some s) = s

  unfoldable pub finish_command : Text → Option Text → Completed → ToolsetState → ToolsetState
  finish_command text expected (called_process_error code) s =
      fail (codes "`" ++ (text ++ (codes "` returned " ++ code))) s
  finish_command text expected (exited output) s =
      if lacks expected output
      then fail
          (codes "`" ++ (text ++ (codes "` did not include `" ++ (or_empty expected ++ codes "`"))))
          s
      else s

  -- One round of the loop of `check_prerequisites`.
  unfoldable pub check_one : Prerequisite W → ToolsetState → W → ToolsetState × W
  unfolding check_env check_static finish_callable finish_command
  check_one (static ok reason) s w = (check_static ok reason s, w)
  check_one (environment names) s w = (check_env names s, w)
  check_one (callable f) s w = let (r, w') = f w in (finish_callable r s, w')
  check_one (command text expected) s w =
      let (r, w') = m.run (m.expandvars text) w in (finish_command text expected r s, w')

  unfoldable pub check_all : List (Prerequisite W) → ToolsetState → W → ToolsetState × W
  unfolding check_one
  check_all [] s w = (s, w)
  check_all (p ∷ ps) s w =
      let (s', w') = check_one p s w in
      let rest = check_all ps s' w' in if is_enabled s'.status then rest else (s', w')

  unfoldable pub check_prerequisites : List (Prerequisite W) → ToolsetState → W → ToolsetState × W
  unfolding check_all sorted_prereqs
  check_prerequisites ps s w = check_all (sorted_prereqs ps) (record s { status = enabled }) w

  -- The loop of `check_config_prerequisites`: the state, and `has_deferred_prereqs` if it came to
  -- the end.
  unfoldable pub check_fast :
      List (Prerequisite W) → ToolsetState → Bool → ToolsetState × Option Bool
  unfolding check_env check_static
  check_fast [] s has_deferred = (s, some has_deferred)
  check_fast (static ok reason ∷ ps) s has_deferred =
      let s' = check_static ok reason s in
      let rest = check_fast ps s' has_deferred in if is_enabled s'.status then rest else (s', none)
  check_fast (environment names ∷ ps) s has_deferred =
      let s' = check_env names s in
      let rest = check_fast ps s' has_deferred in if is_enabled s'.status then rest else (s', none)
  check_fast (callable f ∷ ps) s has_deferred = check_fast ps s true
  check_fast (command text expected ∷ ps) s has_deferred = check_fast ps s true

  -- After the loop.
  unfoldable pub mark_deferred : ToolsetState × Option Bool → ToolsetState
  mark_deferred (s, none) = s
  mark_deferred (s, some true) = record s { lazy_init = true; initialized = false }
  mark_deferred (s, some false) = record s { initialized = true }

  unfoldable pub check_config_prerequisites : List (Prerequisite W) → ToolsetState → ToolsetState
  unfolding check_fast sorted_prereqs mark_deferred
  check_config_prerequisites ps s =
      mark_deferred (check_fast (sorted_prereqs ps) (record s { status = enabled }) false)

  unfoldable pub needs_initialization : ToolsetState → Bool
  needs_initialization s = s.lazy_init && not s.initialized

  -- The state after the call and whether it succeeded.
  unfoldable pub lazy_initialize :
      List (Prerequisite W) → ToolsetState → W → Bool × ToolsetState × W
  unfolding check_prerequisites
  lazy_initialize ps s w =
      if s.initialized
      then (is_enabled s.status, s, w)
      else (let (s', w') = check_prerequisites ps s w in
          (is_enabled s'.status, record s' { initialized = true; lazy_init = false }, w'))
