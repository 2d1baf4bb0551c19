-- ===== src/Toolsets/Ready.antt =====
-- What `ensure_toolset_initialized` guarantees, and the agent over this executor
-- (holmes/core/tools_utils/tool_executor.py, holmes/core/tool_calling_llm.py).
use canis.Prelude.{
  Bool, true, false, ◌≡◌, ◌≢◌, refl, inl, inr, Option, none, some, List, if◌then◌else◌, arith,
  Bool-cases, Text, text_eq_refl, dict_get, dict_get-dict_set,
}
use canis.Tools.Result.{error_result}
use canis.Agent.Invoke.{Executor, AgentState, directly_invoke_tool_call}
use canis.Toolsets.Logging.{is_enabled, Toolset}
use canis.Toolsets.Prerequisites.{
  Machine, ToolsetState, needs_initialization, check_prerequisites, lazy_initialize,
}
use canis.Toolsets.Executor.{
  Contents, ToolExecutor, ToolsetWorld, state_of, with_state, is_failed, initialize_message,
  unavailable_message, ensure_toolset, ensure_toolset_initialized, get_tool_by_name,
}

state_of-with_state :
    {W : Type 0} (name : Text) (s : ToolsetState) (outside : W) (w : ToolsetWorld W)
    → state_of name (with_state name s outside w) ≡ s
unfolding state_of
state_of-with_state name s outside w =
    ground (arith, dict_get-dict_set name name s w.states, text_eq_refl name)

-- The executor as the agent uses it.
abbrev pub with_tools :
    {P W : Type 0}
    → Machine W
    → ToolExecutor P (ToolsetWorld W) W
    → Executor P (ToolsetWorld W)
    → Executor P (ToolsetWorld W)
with_tools m e x = record x {
  get_tool_by_name = get_tool_by_name e;
  ensure_toolset_initialized = ensure_toolset_initialized m e;
}

module _ {P S W : Type 0} (m : Machine W) (ts : Toolset (Contents P S W)) where
  lazy_initialize-initialized :
      (s : ToolsetState) (outside : W)
      → needs_initialization m s ≡ true
      → let (ok, s', outside') = lazy_initialize m ts.rest.prerequisites s outside in
        (ok ≡ is_enabled s'.status) × (needs_initialization m s' ≡ false)
  unfolding lazy_initialize needs_initialization
  lazy_initialize-initialized s outside e = (ground arith, ground arith)

  ensure_toolset-initialized :
      (w : ToolsetWorld W)
      → needs_initialization m (state_of ts.name w) ≡ false
      → ensure_toolset m ts w ≡ (
        if is_failed (state_of ts.name w).status
            then some (unavailable_message ts.name (state_of ts.name w))
            else none,
        w,
      )
  unfolding ensure_toolset
  ensure_toolset-initialized w e = ground arith

  ensure_toolset-first :
      (w : ToolsetWorld W)
      → needs_initialization m (state_of ts.name w) ≡ true
      → let (ok, s', outside) =
          lazy_initialize m ts.rest.prerequisites (state_of ts.name w) w.outside in
        ensure_toolset m ts w ≡ (
          if ok then none else some (initialize_message ts.name s'),
          with_state ts.name s' outside w,
        )
  unfolding ensure_toolset
  ensure_toolset-first w e = rw e refl

  abbrev IsReady : Option Text × ToolsetWorld W → Type 0
  IsReady (message, w) =
      let s = state_of ts.name w in
      (needs_initialization m s ≡ false)
      × (message ≡ none → is_failed s.status ≡ false)
      × (message ≢ none → is_enabled s.status ≡ false)

  ensure_toolset-IsReady : (w : ToolsetWorld W) → IsReady (ensure_toolset m ts w)
  unfolding ensure_toolset
  ensure_toolset-IsReady w = elim (Bool-cases (needs_initialization m (state_of ts.name w))) [
    | inr e ↦ rw (ensure_toolset-initialized w e) (e, λ h. ground arith, λ h. ground arith)
    | inl e ↦
        let s = state_of ts.name w in
        let (ok, s', outside) = lazy_initialize m ts.rest.prerequisites s w.outside in
        let same = state_of-with_state ts.name s' outside w in
        let (fine, ready) = lazy_initialize-initialized s w.outside e in
        rw (ensure_toolset-first w e) (rw same (ready, λ h. ground arith, λ h. ground arith))
  ]

  -- After the call the toolset is initialized. Without a message it has not failed, with one it is
  -- not enabled. A second call changes nothing, and gives no message if the first gave none.
  pub ensure_toolset_lem :
      (w : ToolsetWorld W)
      → let (message, w') = ensure_toolset m ts w in
        let s = state_of ts.name w' in
        (needs_initialization m s ≡ false)
        × (message ≡ none → is_failed s.status ≡ false)
        × (message ≢ none → is_enabled s.status ≡ false)
        × ((ensure_toolset m ts w').1 ≡ w')
        × (message ≡ none → (ensure_toolset m ts w').0 ≡ none)
  ensure_toolset_lem w =
      let (ready, kept, not_kept) = ensure_toolset-IsReady w in
      let again = ensure_toolset-initialized (ensure_toolset m ts w).1 ready in
      (ready, kept, not_kept, rw again refl, λ h. rw again (rw (kept h) refl))

-- A tool of a toolset that cannot be used does not run. If the toolset must be initialized first
-- and its prerequisites, checked now, fail, then the call is an error with the failure, and nothing
-- but those checks and the state of the toolset has changed. If the toolset is initialized and has
-- failed, the call is an error with the failure, and nothing has changed.
pub directly_invoke-unavailable :
    {P W : Type 0} (m : Machine W) (e : ToolExecutor P (ToolsetWorld W) W)
    (x : Executor P (ToolsetWorld W)) (ts : Toolset (Contents P (ToolsetWorld W) W)) (name : Text)
    (params : P) (approved : Bool) (prefixes : List Text) (a : AgentState (ToolsetWorld W))
    → dict_get name e.tool_to_toolset ≡ some ts
    → let s = state_of ts.name a.world in
      let (checked, outside) = check_prerequisites m ts.rest.prerequisites s a.world.outside in
      let called = directly_invoke_tool_call (with_tools m e x) name params approved prefixes a in
      (needs_initialization m s ≡ true
        → is_enabled checked.status ≡ false
        → called ≡ (
          error_result (initialize_message ts.name checked) (some params),
          params,
          record a {
            world =
                with_state ts.name
                  (record checked { initialized = true; lazy_init = false })
                  outside
                  a.world;
          },
        ))
      × (needs_initialization m s ≡ false
          → is_failed s.status ≡ true
          → called ≡ (error_result (unavailable_message ts.name s) (some params), params, a))
unfolding directly_invoke_tool_call ensure_toolset_initialized ensure_toolset lazy_initialize
    needs_initialization
directly_invoke-unavailable m e x ts name params approved prefixes a owner =
    (λ first fails. ground arith, λ ready fails. ground arith)
