-- ===== src/Logs/Tests.antt =====
-- The logs of a pod at concrete outputs.
use canis.Prelude.{
  ℕ, suc, ◌≡◌, ◌↔◌, refl, min, Bool, true, false, ◌==◌, none, some, List, [], ◌∷◌, ◌++◌, map,
  if◌then◌else◌, Text, codes, contains, startswith, is_space, strip, join, length, keep_if, pos,
}
use canis.Tools.Result.{returned}
use canis.Logs.Lines.{StructuredLog, Timestamps, newline, parse_kubectl_logs}
use canis.Logs.Filter.{LogQuery, Regex, filter_logs}
use canis.Logs.Order.{IsByTime}
use canis.Logs.Filtered.{IsKept, filter_logs-IsKept}
use canis.Logs.Printed.{Printed, print, as_log, parse_kubectl_logs-print}
use canis.Logs.Fetch.{KubectlRun, exited, timed_out, Kubectl}

-- Timestamps of one digit.
abbrev timestamps : Timestamps
timestamps [] = none
timestamps (c ∷ s) =
    if c == 49
    then some (codes "1", some 1000)
    else if c == 50
    then some (codes "2", some 2000)
    else none

abbrev first : Printed
first = record {
  pod = codes "api-0";
  container = codes "web";
  timestamp = codes "1";
  ms = 1000;
  content = codes "GET /health ]";
}

abbrev second : Printed
second = record {
  pod = codes "api-0";
  container = codes "proxy";
  timestamp = codes "2";
  ms = 2000;
  content = codes "  [error] timeout";
}

abbrev output : Text
output = codes "[api-0/web] 1 GET /health ]\n[api-0/proxy] 2   [error] timeout"

prints : join (newline ∷ []) (map print (first ∷ second ∷ [])) ≡ output
unfolding join print
prints = refl

stripped :
    strip (join (newline ∷ []) (map print (first ∷ second ∷ [])))
    ≡ join (newline ∷ []) (map print (first ∷ second ∷ []))
unfolding strip join print is_space
stripped = refl

parse_kubectl_logs-print_example :
    (parse_kubectl_logs timestamps (join (newline ∷ []) (map print (first ∷ second ∷ [])))).logs
    ≡ map as_log (first ∷ second ∷ [])
unfolding print
parse_kubectl_logs-print_example =
    parse_kubectl_logs-print timestamps first (second ∷ [])
      (
        record {
          pod_named = refl;
          container_named = refl;
          pod_plain = refl;
          container_plain = refl;
          one_line = refl;
          read = refl;
        },
        (
          record {
            pod_named = refl;
            container_named = refl;
            pod_plain = refl;
            container_plain = refl;
            one_line = refl;
            read = refl;
          },
          tt,
        ),
      )
      stripped

abbrev regex : Regex
regex = record { compile = λ p. none; lower = λ s. s }

abbrev query : LogQuery
query = record {
  include = some (codes "e");
  exclude = some (codes "health");
  limit = some 1;
  time_filter = some (record { start_ms = 500; end_ms = 3000 });
}

abbrev logs : List StructuredLog
logs =
    as_log second
    ∷ as_log first
    ∷ record { timestamp_ms = none; container = none; content = codes "started" }
    ∷ []

keeps_the_last : (filter_logs regex query logs).filtered_logs ≡ as_log second ∷ []
unfolding filter_logs contains startswith
keeps_the_last = refl

filter_logs-IsKept_example :
    let out = filter_logs regex query logs in
    (kept : StructuredLog → Bool) × (ordered : List StructuredLog) × ((l : StructuredLog)
      → (kept l ≡ true) ↔ IsKept regex query l)
    × ((p : StructuredLog → Bool) → length (keep_if p ordered) ≡ length (keep_if p logs))
    × IsByTime ordered
    × IsByTime out.filtered_logs
    × ((front : List StructuredLog) × (keep_if kept ordered ≡ front ++ out.filtered_logs))
    × ((n : ℕ)
        → some 1 ≡ some (suc n)
        → length out.filtered_logs ≡ min (suc n) (length (keep_if kept logs)))
    × (true ≡ false → out.filtered_logs ≡ keep_if kept ordered)
    × (out.filtered_count_before_limit ≡ length (keep_if kept logs))
filter_logs-IsKept_example = filter_logs-IsKept regex query logs

abbrev run : Bool → KubectlRun
run true = timed_out
run false = exited (pos 0) output

abbrev kubectl : Kubectl ℕ
kubectl = record {
  run = run;
  timestamps = timestamps;
  regex = regex;
  query = returned query;
  show_int = λ n. codes "n";
  timeout_seconds = codes "60";
  metadata = λ total f multiple. [];
  dumped = 7;
}
