-- ===== src/Logs/Lines.antt =====
-- The parsers of `kubectl logs`: `parse_logs` and `_parse_kubectl_logs`
-- (holmes/plugins/toolsets/kubernetes_logs.py).
use canis.Prelude.{
  ℕ, Bool, true, false, not, ◌&&◌, ◌==◌, Option, none, some, List, [], ◌∷◌, ◌++◌, if◌then◌else◌,
  Text, text_eq, strip,
}
use canis.Prelude.{ℤ}

pub record StructuredLog : Type 0 where
  pub timestamp_ms : Option ℕ
  pub container : Option Text
  pub content : Text

pub record LogResult : Type 0 where
  pub error_text : Option Text
  pub return_code : Option ℤ
  pub has_multiple_containers : Bool
  pub logs : List StructuredLog

-- `timestamp_pattern.match(line)`: the timestamp that the line begins with, and `to_unix_ms` of it,
-- `none` for a `ValueError`.
abbrev pub Timestamps : Type 0
Timestamps = Text → Option (Text × Option ℕ)

abbrev pub newline : ℕ
newline = 10

-- the line to the first newline, and the other lines
abbrev pub add_char : ℕ → List Text → List Text
add_char c [] = (c ∷ []) ∷ []
add_char c (line ∷ lines) = (c ∷ line) ∷ lines

-- `s.split("\n")`
unfoldable pub split_lines : Text → List Text
split_lines [] = [] ∷ []
split_lines (c ∷ s) =
    let rest = split_lines s in if c == newline then [] ∷ rest else add_char c rest

-- `if line_content.startswith(" "): line_content = line_content[1:]`
abbrev pub drop_space : Text → Text
drop_space [] = []
drop_space (c ∷ s) = if c == 32 then s else c ∷ s

abbrev pub skip : {A : Type 0} → List A → List A → List A
skip [] s = s
skip (x ∷ xs) [] = []
skip (x ∷ xs) (y ∷ ys) = skip xs ys

-- A line after its prefix: the timestamp and the content behind it, or the line as it is.
unfoldable pub structured : Timestamps → Option Text → Text → StructuredLog
structured timestamps container line = elim (timestamps line) [
  | some (ts, some ms) ↦ record {
    timestamp_ms = some ms;
    container = container;
    content = drop_space (skip ts line);
  }
  | other ↦ record { timestamp_ms = none; container = container; content = line }
]

abbrev pub has_timestamp : Timestamps → Text → Bool
has_timestamp timestamps line = elim (timestamps line) [ none ↦ false | some t ↦ true ]

-- `structured_logs[-1].content += "\n" + log_line`
abbrev pub add_to_last : Text → List StructuredLog → List StructuredLog
add_to_last line [] = []
add_to_last line (l ∷ []) = record l { content = l.content ++ (newline ∷ line) } ∷ []
add_to_last line (l ∷ k ∷ ls) = l ∷ add_to_last line (k ∷ ls)

-- The loop of `parse_logs`, with the logs so far.
unfoldable pub parse_lines :
    Timestamps → Option Text → List Text → List StructuredLog → List StructuredLog
unfolding structured
parse_lines timestamps container [] so_far = so_far
parse_lines timestamps container (line ∷ lines) [] =
    parse_lines timestamps container lines (structured timestamps container line ∷ [])
parse_lines timestamps container (line ∷ lines) (l ∷ ls) = parse_lines timestamps container lines (
    if has_timestamp timestamps line
    then (l ∷ ls) ++ structured timestamps container line ∷ []
    else add_to_last line (l ∷ ls))

unfoldable pub parse_logs : Timestamps → Option Text → Option Text → List StructuredLog
unfolding parse_lines split_lines
parse_logs timestamps none container = []
parse_logs timestamps (some []) container = []
parse_logs timestamps (some (c ∷ logs)) container =
    parse_lines timestamps container (split_lines (strip (c ∷ logs))) []

-- The text before the first `stop`, and the text behind it.
abbrev pub before : ℕ → Text → Option (Text × Text)
before stop [] = none
before stop (c ∷ s) =
    let rest = before stop s in
    if c == stop
    then some ([], s)
    else elim rest [ none ↦ none | some (front, back) ↦ some (c ∷ front, back) ]

abbrev pub is_empty : Text → Bool
is_empty [] = true
is_empty (c ∷ s) = false

-- `re.match(r"^\[([^/]+)/([^\]]+)\] (.*)$", line)`, for a line with no newline: the container and
-- the rest.
abbrev pub container_of : Text → Option (Text × Text)
container_of s = elim (before 93 s) [
  | some (container, c ∷ rest) ↦
      if not (is_empty container) && c == 32 then some (container, rest) else none
  | other ↦ none
]

abbrev pub after_pod : Option (Text × Text) → Option (Text × Text)
after_pod none = none
after_pod (some ([], rest)) = none
after_pod (some (c ∷ pod, rest)) = container_of rest

unfoldable pub container_match : Text → Option (Text × Text)
container_match [] = none
container_match (c ∷ s) = if c == 91 then after_pod (before 47 s) else none

-- `has_multiple_containers` and `previous_container`
pub record Seen : Type 0 where
  pub multiple : Bool
  pub previous : Option Text

-- An empty name is not yet a previous container.
abbrev pub note_container : Text → Seen → Seen
note_container name s = elim s.previous [
  | none ↦ if s.multiple then s else record s { previous = some name }
  | some [] ↦ if s.multiple then s else record s { previous = some name }
  | some (c ∷ old) ↦
      if not s.multiple && not (text_eq (c ∷ old) name) then record s { multiple = true } else s
]

-- The loop of `_parse_kubectl_logs`.
unfoldable pub parse_prefixed : Timestamps → List Text → Seen → List StructuredLog × Bool
unfolding parse_logs structured container_match
parse_prefixed timestamps [] s = ([], s.multiple)
parse_prefixed timestamps ([] ∷ lines) s = parse_prefixed timestamps lines s
parse_prefixed timestamps ((c ∷ line) ∷ lines) s = elim (container_match (c ∷ line)) [
  | some (container, rest) ↦
      let (logs, multiple) = parse_prefixed timestamps lines (note_container container s) in
      (structured timestamps (some container) rest ∷ logs, multiple)
  | none ↦
      let (logs, multiple) = parse_prefixed timestamps lines s in
      (parse_logs timestamps (some (c ∷ line)) none ++ logs, multiple)
]

unfoldable pub parse_kubectl_logs : Timestamps → Text → LogResult
unfolding parse_prefixed
parse_kubectl_logs timestamps [] = record {
  error_text = none;
  return_code = none;
  has_multiple_containers = false;
  logs = [];
}
parse_kubectl_logs timestamps (c ∷ text) =
    let (logs, multiple) =
      parse_prefixed timestamps (split_lines (strip (c ∷ text)))
        (record { multiple = false; previous = none }) in
    record {
      error_text = none;
      return_code = none;
      has_multiple_containers = multiple;
      logs = logs;
    }
