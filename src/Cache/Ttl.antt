-- ===== src/Cache/Ttl.antt =====
-- `TTLCache` (holmes/utils/cache.py). Times are numbers of a clock's ticks.
use canis.Prelude.{
  ℕ, ◌+◌, Bool, Option, none, some, List, [], ◌∷◌, leb, if◌then◌else◌, Text, Dict, dict_get,
  dict_set, dict_pop,
}
use canis.Tools.Result.{Outcome, returned, raised}

-- A compressed value with the time when it expires.
pub record Item (B : Type 0) : Type 0 where
  pub value : B
  pub expiry : ℕ

-- The operations of the cache and the timer's turn.
pub data CacheCall (V : Type 0) : Type 0 where
  set : Text → V → CacheCall V
  get : Text → CacheCall V
  delete : Text → CacheCall V
  clear : CacheCall V
  evict : CacheCall V

-- The functions `compress` and `decompress` use zlib and JSON.
pub record Codec (V B : Type 0) : Type 0 where
  pub compress : V → B
  pub decompress : B → Outcome V

module _ {V B : Type 0} (codec : Codec V B) (ttl : ℕ) where
  -- `item["expiry"] <= time.time()`
  abbrev pub is_expired : ℕ → Item B → Bool
  is_expired now item = leb item.expiry now

  abbrev pub expired_keys : ℕ → Dict (Item B) → List Text
  expired_keys now [] = []
  expired_keys now ((key, item) ∷ d) =
      let rest = expired_keys now d in if is_expired now item then key ∷ rest else rest

  abbrev pub delete_all : List Text → Dict (Item B) → Dict (Item B)
  delete_all [] d = d
  delete_all (key ∷ keys) d = delete_all keys (dict_pop key d)

  abbrev pub decompressed : Outcome V → Outcome (Option V)
  decompressed (returned v) = returned (some v)
  decompressed (raised e) = raised e

  unfoldable pub cache_get : Text → ℕ → Dict (Item B) → Outcome (Option V) × Dict (Item B)
  cache_get key now d = elim (dict_get key d) [
    | none ↦ (returned none, d)
    | some item ↦
        if is_expired now item
        then (returned none, dict_pop key d)
        else (decompressed (codec.decompress item.value), d)
  ]

  -- A call at a time; only `get` has a result.
  unfoldable pub cache_call : CacheCall V → ℕ → Dict (Item B) → Outcome (Option V) × Dict (Item B)
  unfolding cache_get
  cache_call (set key v) now d =
      (returned none, dict_set key (record { value = codec.compress v; expiry = now + ttl }) d)
  cache_call (get key) now d = cache_get key now d
  cache_call (delete key) now d = (returned none, dict_pop key d)
  cache_call clear now d = (returned none, [])
  cache_call evict now d = (returned none, delete_all (expired_keys now d) d)

  -- The results of calls, each at its time.
  unfoldable pub cache_run : List (ℕ × CacheCall V) → Dict (Item B) → List (Outcome (Option V))
  unfolding cache_call
  cache_run [] d = []
  cache_run ((now, call) ∷ calls) d = let (o, d') = cache_call call now d in o ∷ cache_run calls d'
