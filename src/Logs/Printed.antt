-- ===== src/Logs/Printed.antt =====
-- What `_parse_kubectl_logs` makes of lines as `kubectl logs --prefix --timestamps` prints them
-- (holmes/plugins/toolsets/kubernetes_logs.py).
use canis.Prelude.{
  ℕ, Bool, true, false, not, ◌==◌, ==_refl, ◌≡◌, refl, ap, ◌∙◌, none, some, List, [], ◌∷◌, ◌++◌,
  map, arith, Text, strip, join, all, All,
}
use canis.Logs.Lines.{
  StructuredLog, Timestamps, newline, split_lines, skip, structured, before, after_pod,
  container_of, container_match, Seen, note_container, parse_prefixed, parse_kubectl_logs, is_empty,
}

-- `[pod/container] timestamp content`
pub record Printed : Type 0 where
  pub pod : Text
  pub container : Text
  pub timestamp : Text
  pub ms : ℕ
  pub content : Text

abbrev pub lacks : ℕ → Text → Bool
lacks c s = all (λ d. not (d == c)) s

abbrev after_bracket : Printed → Text
after_bracket p = p.pod ++ (47 ∷ (p.container ++ (93 ∷ 32 ∷ (p.timestamp ++ (32 ∷ p.content)))))

unfoldable pub print : Printed → Text
print p = 91 ∷ after_bracket p

abbrev pub as_log : Printed → StructuredLog
as_log p = record { timestamp_ms = some p.ms; container = some p.container; content = p.content }

-- The names are not empty and hold no delimiter, no line holds a newline, and the timestamp that is
-- printed is read.
pub record IsPrintable (timestamps : Timestamps) (p : Printed) : Type 0 where
  pub pod_named : is_empty p.pod ≡ false
  pub container_named : is_empty p.container ≡ false
  pub pod_plain : lacks 47 p.pod ≡ true
  pub container_plain : lacks 93 p.container ≡ true
  pub one_line : lacks newline (print p) ≡ true
  pub read : timestamps (p.timestamp ++ (32 ∷ p.content)) ≡ some (p.timestamp, some p.ms)

before-append :
    (stop : ℕ) (front back : Text)
    → lacks stop front ≡ true
    → before stop (front ++ (stop ∷ back)) ≡ some (front, back)
before-append stop [] back h = rw (==_refl stop) refl
before-append stop (c ∷ front) back h = ground (arith, before-append stop front back)

skip-append : (ts s : Text) → skip ts (ts ++ s) ≡ s
skip-append [] s = refl
skip-append (c ∷ ts) s = skip-append ts s

after_pod-named :
    (pod rest : Text) → is_empty pod ≡ false → after_pod (some (pod, rest)) ≡ container_of rest
after_pod-named [] rest h = cc
after_pod-named (c ∷ pod) rest h = refl

container_match-print :
    (timestamps : Timestamps) (p : Printed)
    → IsPrintable timestamps p
    → container_match (print p) ≡ some (p.container, p.timestamp ++ (32 ∷ p.content))
unfolding container_match print
container_match-print timestamps p h =
    let rest = p.timestamp ++ (32 ∷ p.content) in
    rw (before-append 47 p.pod (p.container ++ (93 ∷ 32 ∷ rest)) h.pod_plain) (
      rw (after_pod-named p.pod (p.container ++ (93 ∷ 32 ∷ rest)) h.pod_named) (
        rw (container_of, before-append 93 p.container (32 ∷ rest) h.container_plain)
          (rw h.container_named refl)))

structured-print :
    (timestamps : Timestamps) (p : Printed)
    → IsPrintable timestamps p
    → structured timestamps (some p.container) (p.timestamp ++ (32 ∷ p.content)) ≡ as_log p
unfolding structured
structured-print timestamps p h =
    rw (structured, h.read) (rw (skip-append p.timestamp (32 ∷ p.content)) refl)

parse_prefixed-matched :
    (timestamps : Timestamps) (c : ℕ) (line : Text) (lines : List Text) (s : Seen)
    (container rest : Text)
    → container_match (c ∷ line) ≡ some (container, rest)
    → (parse_prefixed timestamps ((c ∷ line) ∷ lines) s).0
      ≡ structured timestamps (some container) rest
        ∷ (parse_prefixed timestamps lines (note_container container s)).0
unfolding parse_prefixed
parse_prefixed-matched timestamps c line lines s container rest e = rw (parse_prefixed, e) refl

parse_prefixed-print :
    (timestamps : Timestamps) (ps : List Printed) (s : Seen)
    → All (IsPrintable timestamps) ps
    → (parse_prefixed timestamps (map print ps) s).0 ≡ map as_log ps
unfolding parse_prefixed print
parse_prefixed-print timestamps [] s h = refl
parse_prefixed-print timestamps (p ∷ ps) s h =
    parse_prefixed-matched timestamps 91 (after_bracket p) (map print ps) s p.container
      (p.timestamp ++ (32 ∷ p.content)) (container_match-print timestamps p h.0)
    ∙ rw (structured-print timestamps p h.0) (
        ap (λ ls. as_log p ∷ ls)
          (parse_prefixed-print timestamps ps (note_container p.container s) h.1))

split_lines_last : (line : Text) → lacks newline line ≡ true → split_lines line ≡ line ∷ []
unfolding split_lines
split_lines_last [] h = refl
split_lines_last (c ∷ line) h = ground (arith, split_lines_last line)

split_lines-append :
    (line s : Text)
    → lacks newline line ≡ true
    → split_lines (line ++ (newline ∷ s)) ≡ line ∷ split_lines s
unfolding split_lines
split_lines-append [] s h = refl
split_lines-append (c ∷ line) s h = ground (arith, split_lines-append line s)

split_lines-join :
    (line : Text) (lines : List Text)
    → lacks newline line ≡ true
    → All (λ l. lacks newline l ≡ true) lines
    → split_lines (join (newline ∷ []) (line ∷ lines)) ≡ line ∷ lines
unfolding join
split_lines-join line [] h hs = split_lines_last line h
split_lines-join line (next ∷ lines) h hs =
    split_lines-append line (join (newline ∷ []) (next ∷ lines)) h
    ∙ ap (λ ls. line ∷ ls) (split_lines-join next lines hs.0 hs.1)

All-one_line :
    (timestamps : Timestamps) (ps : List Printed)
    → All (IsPrintable timestamps) ps
    → All (λ l. lacks newline l ≡ true) (map print ps)
All-one_line timestamps [] h = tt
All-one_line timestamps (p ∷ ps) h = (h.0.one_line, All-one_line timestamps ps h.1)

parse_kubectl_logs-lines :
    (timestamps : Timestamps) (c : ℕ) (s : Text) (lines : List Text)
    → split_lines (strip (c ∷ s)) ≡ lines
    → (parse_kubectl_logs timestamps (c ∷ s)).logs
      ≡ (parse_prefixed timestamps lines (record { multiple = false; previous = none })).0
unfolding parse_kubectl_logs
parse_kubectl_logs-lines timestamps c s lines e = rw e refl

-- The lines that kubectl prints are read back as they were: the time, the container and the content
-- of each, in order, for an output that has no whitespace at its ends, which is stripped.
pub parse_kubectl_logs-print :
    (timestamps : Timestamps) (p : Printed) (ps : List Printed)
    → All (IsPrintable timestamps) (p ∷ ps)
    → let text = join (newline ∷ []) (map print (p ∷ ps)) in
      strip text ≡ text → (parse_kubectl_logs timestamps text).logs ≡ map as_log (p ∷ ps)
unfolding join print
parse_kubectl_logs-print timestamps p [] h stripped =
    parse_kubectl_logs-lines timestamps 91 (after_bracket p) (print p ∷ [])
      (ap split_lines stripped ∙ split_lines_last (print p) h.0.one_line)
    ∙ parse_prefixed-print timestamps (p ∷ []) (record { multiple = false; previous = none }) h
parse_kubectl_logs-print timestamps p (q ∷ qs) h stripped =
    parse_kubectl_logs-lines timestamps 91 _ (print p ∷ map print (q ∷ qs)) (
      ap split_lines stripped
      ∙ split_lines-join (print p) (map print (q ∷ qs)) h.0.one_line
          (All-one_line timestamps (q ∷ qs) h.1))
    ∙ parse_prefixed-print timestamps (p ∷ q ∷ qs) (record { multiple = false; previous = none }) h
