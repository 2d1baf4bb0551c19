-- ===== src/Toolsets/Tests.antt =====
-- The choice of the logging toolset at concrete toolsets.
use canis.Prelude.{
  ℕ, true, false, not, ◌≡◌, refl, ◌⊎◌, List, [], ◌∷◌, ◌++◌, codes, keep_if, text_eq, text_lt,
}
use canis.Toolsets.Logging.{
  Toolset, enabled, failed, is_logging, IsChosen, filter_out_default_logging_toolset,
  filter_out_default_logging_toolset_lem,
}

abbrev k8s : Toolset ℕ
k8s = record { name = codes "kubernetes/logs"; status = enabled; is_pod_logging = true; rest = 0 }

abbrev loki : Toolset ℕ
loki = record { name = codes "grafana/loki"; status = enabled; is_pod_logging = true; rest = 1 }

abbrev datadog : Toolset ℕ
datadog = record { name = codes "datadog/logs"; status = enabled; is_pod_logging = true; rest = 2 }

abbrev bash : Toolset ℕ
bash = record { name = codes "bash"; status = failed; is_pod_logging = false; rest = 3 }

abbrev all_of_them : List (Toolset ℕ)
all_of_them = k8s ∷ loki ∷ bash ∷ datadog ∷ []

picks_datadog : filter_out_default_logging_toolset all_of_them ≡ bash ∷ datadog ∷ []
unfolding filter_out_default_logging_toolset text_eq text_lt
picks_datadog = refl

filter_out_default_logging_toolset_example :
    let out = filter_out_default_logging_toolset all_of_them in
    let others = keep_if (λ (t : Toolset ℕ). not (is_logging t)) all_of_them in
    let logging = keep_if is_logging all_of_them in
    ((logging ≡ []) × (out ≡ others))
    ⊎ ((c : Toolset ℕ) × (out ≡ others ++ c ∷ []) × IsChosen logging c)
filter_out_default_logging_toolset_example = filter_out_default_logging_toolset_lem all_of_them
