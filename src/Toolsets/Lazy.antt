-- ===== src/Toolsets/Lazy.antt =====
-- Checking a toolset in two steps, the fast prerequisites at the start and all of them on the first
-- use, comes to the same as checking all of them at the start (holmes/core/tools.py).
use canis.Prelude.{
  Bool, true, false, ◌≡◌, refl, sym, ap, ◌∙◌, ◌⊎◌, inl, inr, Option, none, some, List, [], ◌∷◌, ltb,
  arith, if◌then◌else◌, Text, Bool-cases, All, ◌++◌, codes,
}
use canis.Tools.Result.{Outcome, returned, raised}
use canis.Toolsets.Logging.{enabled, is_enabled}
use canis.Toolsets.Prerequisites.{
  Prerequisite, static, environment, callable, command, Machine, ToolsetState, fail,
  prereq_priority, is_fast, insert_prereq, sorted_prereqs, check_env, check_static, finish_callable,
  finish_command, lacks, Completed, exited, called_process_error, check_one, check_all,
  check_prerequisites, check_fast, mark_deferred, check_config_prerequisites, needs_initialization,
  lazy_initialize,
}

abbrev IsDeferred : {W : Type 0} → Prerequisite W → Type 0
IsDeferred p = is_fast p ≡ false

-- The fast ones come first.
abbrev FastFirst : {W : Type 0} → List (Prerequisite W) → Type 0
FastFirst [] = Unit {0}
FastFirst (p ∷ ps) = ((is_fast p ≡ true) × FastFirst ps) ⊎ All IsDeferred (p ∷ ps)

is_fast_iff : {W : Type 0} (p : Prerequisite W) → is_fast p ≡ ltb (prereq_priority p) 2
is_fast_iff (static ok reason) = refl
is_fast_iff (environment names) = refl
is_fast_iff (callable f) = refl
is_fast_iff (command text expected) = refl

insert_prereq-IsDeferred :
    {W : Type 0} (p : Prerequisite W) (ps : List (Prerequisite W))
    → is_fast p ≡ false
    → All IsDeferred ps
    → All IsDeferred (insert_prereq p ps)
unfolding insert_prereq
insert_prereq-IsDeferred p [] d all_of_them = (d, tt)
insert_prereq-IsDeferred p (q ∷ qs) d all_of_them =
    elim (Bool-cases (ltb (prereq_priority q) (prereq_priority p))) [
      | inl e ↦ rw e (all_of_them.0, insert_prereq-IsDeferred p qs d all_of_them.1)
      | inr e ↦ rw e (d, all_of_them)
    ]

insert_prereq-FastFirst :
    {W : Type 0} (p : Prerequisite W) (ps : List (Prerequisite W))
    → FastFirst ps
    → FastFirst (insert_prereq p ps)
unfolding insert_prereq
insert_prereq-FastFirst p [] h = elim (Bool-cases (is_fast p)) [
  | inl e ↦ inl (e, tt)
  | inr e ↦ inr (e, tt)
]
insert_prereq-FastFirst p (q ∷ qs) h =
    elim (Bool-cases (ltb (prereq_priority q) (prereq_priority p))) [
      | inl e ↦ rw e (elim h [
        | inl (fast, later) ↦ inl (fast, insert_prereq-FastFirst p qs later)
        | inr all_of_them ↦ inr (
          all_of_them.0,
          insert_prereq-IsDeferred p qs (ground (arith, is_fast_iff p, is_fast_iff q))
              all_of_them.1,
        )
      ])
      | inr e ↦ rw e (elim (Bool-cases (is_fast p)) [
        | inl fast ↦ inl (fast, h)
        | inr slow ↦ elim h [
          | inl (fast, later) ↦ absurd (ground (arith, is_fast_iff p, is_fast_iff q))
          | inr all_of_them ↦ inr (slow, all_of_them)
        ]
      ])
    ]

sorted_prereqs-FastFirst : {W : Type 0} (ps : List (Prerequisite W)) → FastFirst (sorted_prereqs ps)
unfolding sorted_prereqs
sorted_prereqs-FastFirst [] = tt
sorted_prereqs-FastFirst (p ∷ ps) =
    insert_prereq-FastFirst p (sorted_prereqs ps) (sorted_prereqs-FastFirst ps)

after_fast :
    {W : Type 0} (p : Prerequisite W) (ps : List (Prerequisite W))
    → is_fast p ≡ true
    → FastFirst (p ∷ ps)
    → FastFirst ps
after_fast p ps e (inl (fast, later)) = later
after_fast p ps e (inr slow) = absurd (ground arith)

module _ {W : Type 0} (m : Machine W) where
  -- With deferred ones alone the fast loop comes to its end.
  check_fast-IsDeferred :
      (ps : List (Prerequisite W)) (s : ToolsetState)
      → All IsDeferred ps
      → check_fast m ps s true ≡ (s, some true)
  unfolding check_fast
  check_fast-IsDeferred [] s h = refl
  check_fast-IsDeferred (static ok reason ∷ ps) s h = cc
  check_fast-IsDeferred (environment names ∷ ps) s h = cc
  check_fast-IsDeferred (callable f ∷ ps) s h = check_fast-IsDeferred ps s h.1
  check_fast-IsDeferred (command text expected ∷ ps) s h = check_fast-IsDeferred ps s h.1

  -- The fast loop and the whole loop from one state: either the fast one fails, and so does the
  -- whole one with the same state and the world as it was; or it comes to its end without a change,
  -- and if it met nothing deferred, so does the whole one.
  abbrev Agree : List (Prerequisite W) → ToolsetState → W → ToolsetState × Option Bool → Type 0
  Agree ps s w (s', none) = (is_enabled s'.status ≡ false) × (check_all m ps s w ≡ (s', w))
  Agree ps s w (s', some true) = s' ≡ s
  Agree ps s w (s', some false) = (s' ≡ s) × (check_all m ps s w ≡ (s, w))

  check_env_failed :
      (names : List Text) (s : ToolsetState)
      → is_enabled s.status ≡ false
      → is_enabled (check_env m names s).status ≡ false
  unfolding check_env
  check_env_failed [] s e = e
  check_env_failed (name ∷ names) s e = elim (Bool-cases (m.is_set name)) [
    | inl f ↦ rw (is_enabled, f) (check_env_failed names s e)
    | inr f ↦
        rw (is_enabled, f)
          (check_env_failed names
            (fail (codes "Environment variable " ++ (name ++ codes " was not set")) s) refl)
  ]

  check_env_passed :
      (names : List Text) (s : ToolsetState)
      → is_enabled (check_env m names s).status ≡ true
      → check_env m names s ≡ s
  unfolding check_env
  check_env_passed [] s e = refl
  check_env_passed (name ∷ names) s e = elim (Bool-cases (m.is_set name)) [
    | inl f ↦ rw f (check_env_passed names s (rw (is_enabled, f) at e))
    | inr f ↦ absurd (
        ground (
          arith,
          check_env_failed names
              (fail (codes "Environment variable " ++ (name ++ codes " was not set")) s),
        ))
  ]

  Agree-same :
      (ps qs : List (Prerequisite W)) (s : ToolsetState) (w : W) (o : ToolsetState × Option Bool)
      → check_all m ps s w ≡ check_all m qs s w
      → Agree ps s w o
      → Agree qs s w o
  Agree-same ps qs s w (s', none) e h = (h.0, sym e ∙ h.1)
  Agree-same ps qs s w (s', some true) e h = h
  Agree-same ps qs s w (s', some false) e h = (h.0, sym e ∙ h.1)

  check_fast-Agree :
      (ps : List (Prerequisite W)) (s : ToolsetState) (w : W) (b : Bool)
      → is_enabled s.status ≡ true
      → FastFirst ps
      → Agree ps s w (check_fast m ps s b)
  unfolding check_fast check_all
  check_fast-Agree [] s w true on h = refl
  check_fast-Agree [] s w false on h = (refl, refl)
  check_fast-Agree (static true reason ∷ ps) s w b on h = rw on (
      Agree-same ps (static true reason ∷ ps) s w (check_fast m ps s b) (rw on refl)
        (check_fast-Agree ps s w b on (after_fast (static true reason) ps refl h)))
  check_fast-Agree (static false reason ∷ ps) s w b on h = (refl, refl)
  check_fast-Agree (environment names ∷ ps) s w b on h =
      elim (Bool-cases (is_enabled (check_env m names s).status)) [
        | inr e ↦ rw e (e, rw e refl)
        | inl e ↦
            let same = check_env_passed names s e in
            rw same (
              rw on (
                Agree-same ps (environment names ∷ ps) s w (check_fast m ps s b)
                  (rw same (rw on refl))
                  (check_fast-Agree ps s w b on (after_fast (environment names) ps refl h))))
      ]
  check_fast-Agree (callable f ∷ ps) s w b on h = elim h [
    | inl (fast, later) ↦ cc
    | inr slow ↦ rw (check_fast-IsDeferred ps s slow.1) refl
  ]
  check_fast-Agree (command text expected ∷ ps) s w b on h = elim h [
    | inl (fast, later) ↦ cc
    | inr slow ↦ rw (check_fast-IsDeferred ps s slow.1) refl
  ]

  abbrev with_flags : Bool → Bool → ToolsetState → ToolsetState
  with_flags lazy done s = record s { lazy_init = lazy; initialized = done }

  check_env-with_flags :
      (names : List Text) (lazy done : Bool) (s : ToolsetState)
      → check_env m names (with_flags lazy done s) ≡ with_flags lazy done (check_env m names s)
  unfolding check_env
  check_env-with_flags [] lazy done s = refl
  check_env-with_flags (name ∷ names) lazy done s = ground (
    arith,
    check_env-with_flags names lazy done s,
    check_env-with_flags names lazy done
        (fail (codes "Environment variable " ++ (name ++ codes " was not set")) s),
  )

  finish_callable-with_flags :
      (r : Outcome (Bool × Text)) (lazy done : Bool) (s : ToolsetState)
      → finish_callable m r (with_flags lazy done s) ≡ with_flags lazy done (finish_callable m r s)
  unfolding finish_callable
  finish_callable-with_flags (raised e) lazy done s = refl
  finish_callable-with_flags (returned (true, [])) lazy done s = refl
  finish_callable-with_flags (returned (true, c ∷ message)) lazy done s = refl
  finish_callable-with_flags (returned (false, [])) lazy done s = refl
  finish_callable-with_flags (returned (false, c ∷ message)) lazy done s = refl

  finish_command-with_flags :
      (text : Text) (expected : Option Text) (r : Completed) (lazy done : Bool) (s : ToolsetState)
      → finish_command m text expected r (with_flags lazy done s)
        ≡ with_flags lazy done (finish_command m text expected r s)
  unfolding finish_command
  finish_command-with_flags text expected (called_process_error code) lazy done s = refl
  finish_command-with_flags text expected (exited output) lazy done s =
      elim (Bool-cases (lacks m expected output)) [ inl e ↦ rw e refl | inr e ↦ rw e refl ]

  -- The checks neither read nor write the flags of the initialization.
  check_one-with_flags :
      (p : Prerequisite W) (lazy done : Bool) (s : ToolsetState) (w : W)
      → check_one m p (with_flags lazy done s) w
        ≡ (with_flags lazy done (check_one m p s w).0, (check_one m p s w).1)
  unfolding check_one check_static
  check_one-with_flags (static true reason) lazy done s w = refl
  check_one-with_flags (static false reason) lazy done s w = refl
  check_one-with_flags (environment names) lazy done s w =
      rw (check_env-with_flags names lazy done s) refl
  check_one-with_flags (callable f) lazy done s w =
      rw (finish_callable-with_flags (f w).0 lazy done s) refl
  check_one-with_flags (command text expected) lazy done s w =
      rw (finish_command-with_flags text expected (m.run (m.expandvars text) w).0 lazy done s) refl

  check_all-with_flags :
      (ps : List (Prerequisite W)) (lazy done : Bool) (s : ToolsetState) (w : W)
      → check_all m ps (with_flags lazy done s) w
        ≡ (with_flags lazy done (check_all m ps s w).0, (check_all m ps s w).1)
  unfolding check_all
  check_all-with_flags [] lazy done s w = refl
  check_all-with_flags (p ∷ ps) lazy done s w =
      let (s', w') = check_one m p s w in
      rw (check_one-with_flags p lazy done s w) (
        rw (check_all-with_flags ps lazy done s' w')
          (elim (Bool-cases (is_enabled s'.status)) [ inl e ↦ rw e refl | inr e ↦ rw e refl ]))

  check_fast-lazy_init :
      (ps : List (Prerequisite W)) (s : ToolsetState) (b : Bool)
      → (check_fast m ps s b).0.lazy_init ≡ s.lazy_init
  unfolding check_fast
  check_fast-lazy_init [] s b = refl
  check_fast-lazy_init (static true reason ∷ ps) s b = elim (Bool-cases (is_enabled s.status)) [
    | inl e ↦ rw e (check_fast-lazy_init ps s b)
    | inr e ↦ rw e refl
  ]
  check_fast-lazy_init (static false reason ∷ ps) s b = refl
  check_fast-lazy_init (environment names ∷ ps) s b =
      let kept =
        ap (λ (t : ToolsetState). t.lazy_init)
          (check_env-with_flags names s.lazy_init s.initialized s) in
      elim (Bool-cases (is_enabled (check_env m names s).status)) [
        | inl e ↦ rw e (check_fast-lazy_init ps (check_env m names s) b ∙ kept)
        | inr e ↦ rw e kept
      ]
  check_fast-lazy_init (callable f ∷ ps) s b = check_fast-lazy_init ps s true
  check_fast-lazy_init (command text expected ∷ ps) s b = check_fast-lazy_init ps s true

  -- The first use of a toolset.
  unfoldable pub use_toolset : List (Prerequisite W) → ToolsetState → W → ToolsetState × W
  use_toolset ps s w =
      let (ok, s', w') = lazy_initialize m ps s w in
      if needs_initialization m s then (s', w') else (s, w)

  abbrev Same : ToolsetState × W → ToolsetState × W → Type 0
  Same (s, w) (s', w') = (s.status ≡ s'.status) × (s.error_text ≡ s'.error_text) × (w ≡ w')

  use_toolset-Same :
      (ps : List (Prerequisite W)) (s : ToolsetState) (w : W) (o : ToolsetState × Option Bool)
      → s.lazy_init ≡ false
      → o.0.lazy_init ≡ s.lazy_init
      → Agree (sorted_prereqs ps) (record s { status = enabled }) w o
      → Same (use_toolset ps (mark_deferred m o) w) (check_prerequisites m ps s w)
  unfolding use_toolset mark_deferred needs_initialization lazy_initialize check_prerequisites
  use_toolset-Same ps s w (s', none) fresh kept agree =
      rw (kept ∙ fresh) (rw agree.1 (refl, refl, refl))
  use_toolset-Same ps s w (s', some true) fresh kept agree = rw agree (
      rw (check_all-with_flags (sorted_prereqs ps) true false (record s { status = enabled }) w)
        (refl, refl, refl))
  use_toolset-Same ps s w (s', some false) fresh kept agree =
      rw agree.1 (rw agree.0 (rw fresh (refl, refl, refl)))

  -- A toolset that is not yet marked for lazy initialization ends with the same status, error and
  -- world, whether its prerequisites are checked at once, or the fast ones first and, if they hold
  -- and others were put off, all of them on the first use.
  pub check_prerequisites-use_toolset :
      (ps : List (Prerequisite W)) (s : ToolsetState) (w : W)
      → s.lazy_init ≡ false
      → let (lazily, w') = use_toolset ps (check_config_prerequisites m ps s) w in
        let (eagerly, w'') = check_prerequisites m ps s w in
        (lazily.status ≡ eagerly.status) × (lazily.error_text ≡ eagerly.error_text) × (w' ≡ w'')
  unfolding check_config_prerequisites
  check_prerequisites-use_toolset ps s w fresh =
      let sorted = sorted_prereqs ps in
      let s0 = record s { status = enabled } in
      use_toolset-Same ps s w (check_fast m sorted s0 false) fresh
        (check_fast-lazy_init sorted s0 false)
        (check_fast-Agree sorted s0 w false refl (sorted_prereqs-FastFirst ps))
