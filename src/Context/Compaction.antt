-- ===== src/Context/Compaction.antt =====
-- holmes/core/truncation/compaction.py
use canis.Prelude.{
  ◌≡◌, refl, true, false, Option, none, some, List, [], ◌∷◌, ◌++◌, arith, if◌then◌else◌, Text,
  codes, inl, inr, ◌⊎◌, Bool-cases,
}
use canis.Tools.Json.{str}
use canis.Tools.Result.{Outcome, returned, raised}
use canis.Context.Message.{Message, bare, is_role}
use canis.Context.Llm.{Llm, Reply}

unfoldable pub strip_system_prompt : List Message → List Message × Option Message
strip_system_prompt [] = ([], none)
strip_system_prompt (m ∷ ms) = if is_role "system" m then (ms, some m) else (m ∷ ms, none)

-- the loop, with the last user message so far
unfoldable pub find_last_user_from : Option Message → List Message → Option Message
find_last_user_from last [] = last
find_last_user_from last (m ∷ ms) =
    find_last_user_from (if is_role "user" m then some m else last) ms

unfoldable pub find_last_user_prompt : List Message → Option Message
unfolding find_last_user_from
find_last_user_prompt messages = find_last_user_from none messages

abbrev pub as_list : Option Message → List Message
as_list none = []
as_list (some m) = m ∷ []

abbrev pub compaction_notice : Message
compaction_notice = bare (codes "system") (
    str (
      codes
        "The conversation history has been compacted to preserve available space in the context window. Continue."))

-- An empty history is no copy: the instructions are appended to the caller's list itself.
abbrev pub after_append : List Message → Message → List Message
after_append [] instructions = instructions ∷ []
after_append (m ∷ ms) instructions = m ∷ ms

-- The compacted history, once the model has answered.
unfoldable pub compacted : List Message → Option Message → Reply → List Message
unfolding find_last_user_prompt
compacted original system reply =
    as_list system
    ++ (as_list (find_last_user_prompt original) ++ (reply.message ∷ compaction_notice ∷ []))

module _ {T W : Type 0} (llm : Llm T W) (instructions : Text) where
  unfoldable pub compact_conversation_history : List Message → W → Outcome (List Message) × W
  unfolding strip_system_prompt compacted
  compact_conversation_history original w =
      let (rest, system) = strip_system_prompt original in
      let prompt = bare (codes "user") (str instructions) in
      let (r, w') = llm.completion (rest ++ prompt ∷ []) none w in
      let original' = after_append original prompt in
      (
        elim r [
          | raised e ↦ raised e
          | returned none ↦ returned original'
          | returned (some reply) ↦ returned (compacted original' system reply)
        ],
        w',
      )

abbrev pub HasNoUser : List Message → Type 0
HasNoUser [] = Unit {0}
HasNoUser (x ∷ ms) = (is_role "user" x ≡ false) × HasNoUser ms

-- `m` is a user message of the list, and no user message comes after it.
abbrev pub IsLastUser : Message → List Message → Type 0
IsLastUser m [] = ⊥
IsLastUser m (x ∷ ms) = IsLastUser m ms ⊎ ((m ≡ x) × (is_role "user" m ≡ true) × HasNoUser ms)

find_last_user_from-last :
    (ms : List Message) (last : Option Message) (m : Message)
    → find_last_user_from last ms ≡ some m
    → IsLastUser m ms ⊎ ((last ≡ some m) × HasNoUser ms)
unfolding find_last_user_from
find_last_user_from-last [] last m h = inr (h, tt)
find_last_user_from-last (x ∷ ms) last m h = elim (Bool-cases (is_role "user" x)) [
  | inl e ↦ elim (find_last_user_from-last ms (some x) m (rw e at h)) [
    | inl later ↦ inl (inl later)
    | inr (same, no_more) ↦ inl (inr (cc, ground arith, no_more))
  ]
  | inr e ↦ elim (find_last_user_from-last ms last m (rw e at h)) [
    | inl later ↦ inl (inl later)
    | inr (same, no_more) ↦ inr (same, (e, no_more))
  ]
]

find_last_user_from-some :
    (ms : List Message) (x : Message) → (m : Message) × (find_last_user_from (some x) ms ≡ some m)
unfolding find_last_user_from
find_last_user_from-some [] x = (x, refl)
find_last_user_from-some (y ∷ ms) x = elim (Bool-cases (is_role "user" y)) [
  | inl e ↦ rw e (find_last_user_from-some ms y)
  | inr e ↦ rw e (find_last_user_from-some ms x)
]

find_last_user_from-none : (ms : List Message) → find_last_user_from none ms ≡ none → HasNoUser ms
unfolding find_last_user_from
find_last_user_from-none [] h = tt
find_last_user_from-none (x ∷ ms) h = elim (Bool-cases (is_role "user" x)) [
  | inl e ↦ let (m, found) = find_last_user_from-some ms x in absurd (ground (arith, found))
  | inr e ↦ (e, find_last_user_from-none ms (rw e at h))
]

find_last_user_prompt-last :
    (ms : List Message) (m : Message) → find_last_user_prompt ms ≡ some m → IsLastUser m ms
unfolding find_last_user_prompt
find_last_user_prompt-last ms m found = elim (find_last_user_from-last ms none m found) [
  | inl last ↦ last
  | inr (impossible, no_more) ↦ absurd (ground arith)
]

find_last_user_prompt-none : (ms : List Message) → find_last_user_prompt ms ≡ none → HasNoUser ms
unfolding find_last_user_prompt
find_last_user_prompt-none ms missing = find_last_user_from-none ms missing

abbrev pub StartsWithSystem : List Message → Option Message → Type 0
StartsWithSystem [] system = system ≡ none
StartsWithSystem (m ∷ ms) system = system ≡ (if is_role "system" m then some m else none)

-- When the model answers, the compacted history is the system prompt of the history, if it begins
-- with one, then its last user message, if it has one, then the answer and a notice. A model
-- without an answer leaves the history as it is.
pub compact_conversation_history_lem :
    {T W : Type 0} (llm : Llm T W) (instructions : Text) (first : Message) (ms : List Message)
    (w : W)
    → let history = first ∷ ms in
      let prompt = bare (codes "user") (str instructions) in
      let (rest, system) = strip_system_prompt history in
      let (r, w') = llm.completion (rest ++ prompt ∷ []) none w in
      StartsWithSystem history system
      × (r ≡ returned none
          → compact_conversation_history llm instructions history w ≡ (returned history, w'))
      × ((reply : Reply)
          → r ≡ returned (some reply)
          → (user : Option Message) × (compact_conversation_history llm instructions history w ≡ (
            returned (as_list system ++ (as_list user ++ (reply.message ∷ compaction_notice ∷ []))),
            w',
          ))
            × ((m : Message) → user ≡ some m → IsLastUser m history)
            × (user ≡ none → HasNoUser history))
unfolding compact_conversation_history
compact_conversation_history_lem llm instructions first ms w = (
  ground arith,
  λ e. ground arith,
  λ reply e. (
    find_last_user_prompt (first ∷ ms),
    ground arith,
    λ m found. find_last_user_prompt-last (first ∷ ms) m found,
    λ missing. find_last_user_prompt-none (first ∷ ms) missing,
  ),
)
