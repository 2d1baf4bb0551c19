-- ===== src/Cache/Tests.antt =====
-- The cache at a codec that marks its values.
use canis.Prelude.{
  ℕ, ◌≡◌, refl, none, some, List, [], ◌∷◌, arith, Text, codes, text_eq, dict_get, dict_set,
}
use canis.Tools.Result.{returned, raised}
use canis.Cache.Ttl.{CacheCall, set, get, evict, Codec, cache_run}
use canis.Cache.Refines.{spec_run, cache_run-spec_run}

abbrev codec : Codec ℕ (List ℕ)
codec = record {
  compress = λ v. v ∷ [];
  decompress = λ b. elim b [ [] ↦ raised (codes "Decompression failed") | v ∷ vs ↦ returned v ];
}

abbrev key : Text
key = codes "a"

abbrev calls : List (ℕ × CacheCall ℕ)
calls = (0, set key 7) ∷ (5, evict) ∷ (9, get key) ∷ (10, get key) ∷ []

-- The value is there for ten ticks.
ten_ticks :
    cache_run codec 10 calls []
    ≡ returned none ∷ returned none ∷ returned (some 7) ∷ returned none ∷ []
unfolding cache_run text_eq dict_get dict_set
ten_ticks = refl

cache_run-spec_run_example : cache_run codec 10 calls [] ≡ spec_run codec 10 calls (λ key. none)
cache_run-spec_run_example =
    cache_run-spec_run codec 10 0 calls (λ v. refl)
      (omega arith, (omega arith, (omega arith, (omega arith, tt))))
