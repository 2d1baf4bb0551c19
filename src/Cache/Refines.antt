-- ===== src/Cache/Refines.antt =====
-- The cache shows what a map with expiry times would (holmes/utils/cache.py).
use canis.Prelude.{
  ℕ, ◌+◌, ◌≤◌, true, ◌≡◌, refl, sym, ap, ◌∙◌, inl, inr, Option, none, some, List, [], ◌∷◌, any,
  subst, leb, if◌then◌else◌, arith, Bool-cases, Option-cases, Text, text_eq, text_eq_iff, Dict,
  dict_get, dict_pop, dict_get-dict_set, dict_get-dict_pop,
}
use canis.Tools.Result.{Outcome, returned}
use canis.Cache.Ttl.{
  Item, CacheCall, set, get, delete, clear, evict, Codec, expired_keys, delete_all, decompressed,
  cache_get, cache_call, cache_run,
}
use canis.Cache.Expired.{
  IsUnique, dict_set-IsUnique, dict_pop-IsUnique, delete_all-IsUnique, dict_get-delete_all,
  expired_keys_item,
}

-- The map: what was set last, with the time when it expires.
abbrev pub Entries : Type 0 → Type 0
Entries V = Text → Option (V × ℕ)

module _ {V B : Type 0} (codec : Codec V B) (ttl : ℕ) where
  abbrev pub shown : ℕ → Option (V × ℕ) → Option V
  shown now none = none
  shown now (some (v, expiry)) = if leb expiry now then none else some v

  -- A deletion by a `get` or by the timer is not seen.
  unfoldable pub spec_call : CacheCall V → ℕ → Entries V → Option V × Entries V
  spec_call (set key v) now f = (none, λ j. if text_eq key j then some (v, now + ttl) else f j)
  spec_call (get key) now f = (shown now (f key), f)
  spec_call (delete key) now f = (none, λ j. if text_eq key j then none else f j)
  spec_call clear now f = (none, λ j. none)
  spec_call evict now f = (none, f)

  unfoldable pub spec_run : List (ℕ × CacheCall V) → Entries V → List (Outcome (Option V))
  unfolding spec_call
  spec_run [] f = []
  spec_run ((now, call) ∷ calls) f =
      let (o, f') = spec_call call now f in returned o ∷ spec_run calls f'

  -- The times do not go back.
  abbrev pub InOrder : ℕ → List (ℕ × CacheCall V) → Type 0
  InOrder now [] = Unit {0}
  InOrder now ((next, call) ∷ calls) = (now ≤ next) × InOrder next calls

  abbrev visible : ℕ → Option (Item B) → Option B
  visible now none = none
  visible now (some item) = if leb item.expiry now then none else some item.value

  abbrev compressed : Option V → Option B
  compressed none = none
  compressed (some v) = some (codec.compress v)

  -- From the time on, the same is visible.
  abbrev Agrees : ℕ → Dict (Item B) → Entries V → Type 0
  Agrees now d f =
      (key : Text) (t : ℕ) → now ≤ t → visible t (dict_get key d) ≡ compressed (shown t (f key))

  -- Nothing is visible of an item that has expired.
  visible_expired :
      (now t : ℕ) (item : Item B)
      → now ≤ t
      → leb item.expiry now ≡ true
      → visible t (some item) ≡ none
  visible_expired now t item later old =
      let older : leb item.expiry t ≡ true = ground arith in rw older refl

  -- The timer hides nothing that is visible.
  evict-Agrees :
      (now : ℕ) (d : Dict (Item B)) (f : Entries V)
      → IsUnique codec ttl d
      → Agrees now d f
      → Agrees now (delete_all codec ttl (expired_keys codec ttl now d) d) f
  evict-Agrees now d f unique same key t later =
      let got = dict_get-delete_all codec ttl key (expired_keys codec ttl now d) d in
      elim (Bool-cases (any (λ k. text_eq k key) (expired_keys codec ttl now d))) [
        | inl e ↦
            let (item, (found, old)) = expired_keys_item codec ttl key now d unique e in
            let hidden = visible_expired now t item later old in
            rw got (rw e (sym hidden ∙ ap (visible t) (sym found) ∙ same key t later))
        | inr e ↦ rw got (rw e (same key t later))
      ]

  pop-Agrees :
      (k : Text) (item : Item B) (now : ℕ) (d : Dict (Item B)) (f : Entries V)
      → dict_get k d ≡ some item
      → leb item.expiry now ≡ true
      → Agrees now d f
      → Agrees now (dict_pop k d) f
  pop-Agrees k item now d f found old same key t later =
      let got = dict_get-dict_pop key k d in
      elim (Bool-cases (text_eq k key)) [
        | inl e ↦
            let hidden = visible_expired now t item later old in
            let moved : dict_get key d ≡ some item =
              ap (λ (j : Text). dict_get j d) (sym ((text_eq_iff k key).0 e)) ∙ found in
            rw got (rw e (sym hidden ∙ ap (visible t) (sym moved) ∙ same key t later))
        | inr e ↦ rw got (rw e (same key t later))
      ]

  call_state :
      (call : CacheCall V) (now : ℕ) (d : Dict (Item B)) (f : Entries V)
      → IsUnique codec ttl d
      → Agrees now d f
      → IsUnique codec ttl (cache_call codec ttl call now d).1
        × Agrees now (cache_call codec ttl call now d).1 (spec_call call now f).1
  unfolding cache_call cache_get spec_call dict_get
  call_state (set k v) now d f unique same = (
    dict_set-IsUnique codec ttl k (record { value = codec.compress v; expiry = now + ttl }) d
        unique,
    λ key t later.
        let got =
          dict_get-dict_set key k (record { value = codec.compress v; expiry = now + ttl }) d in
        elim (Bool-cases (text_eq k key)) [
          | inl e ↦ rw got (
              rw e
                (elim (Bool-cases (leb (now + ttl) t)) [ inl g ↦ rw g refl | inr g ↦ rw g refl ]))
          | inr e ↦ rw got (rw e (same key t later))
        ],
  )
  call_state (get k) now d f unique same = elim (Option-cases (dict_get k d)) [
    | inl e ↦
        let kept : (cache_call codec ttl (get k) now d).1 ≡ d = rw (cache_get, e) refl in
        subst (λ (d' : Dict (Item B)). IsUnique codec ttl d' × Agrees now d' f) (sym kept)
          (unique, same)
    | inr (item, e) ↦ elim (Bool-cases (leb item.expiry now)) [
      | inl g ↦
          let popped : (cache_call codec ttl (get k) now d).1 ≡ dict_pop k d =
            rw (cache_get, e) (rw g refl) in
          subst (λ (d' : Dict (Item B)). IsUnique codec ttl d' × Agrees now d' f) (sym popped)
            (dict_pop-IsUnique codec ttl k d unique, pop-Agrees k item now d f e g same)
      | inr g ↦
          let kept : (cache_call codec ttl (get k) now d).1 ≡ d = rw (cache_get, e) (rw g refl) in
          subst (λ (d' : Dict (Item B)). IsUnique codec ttl d' × Agrees now d' f) (sym kept)
            (unique, same)
    ]
  ]
  call_state (delete k) now d f unique same = (
    dict_pop-IsUnique codec ttl k d unique,
    λ key t later.
        let got = dict_get-dict_pop key k d in
        elim (Bool-cases (text_eq k key)) [
          | inl e ↦ rw got (rw e refl)
          | inr e ↦ rw got (rw e (same key t later))
        ],
  )
  call_state clear now d f unique same = (tt, λ key t later. refl)
  call_state evict now d f unique same = (
    delete_all-IsUnique codec ttl (expired_keys codec ttl now d) d unique,
    evict-Agrees now d f unique same,
  )

  get_result :
      (k : Text) (now : ℕ) (d : Dict (Item B)) (f : Entries V)
      → ((v : V) → codec.decompress (codec.compress v) ≡ returned v)
      → visible now (dict_get k d) ≡ compressed (shown now (f k))
      → (cache_get codec ttl k now d).0 ≡ returned (shown now (f k))
  unfolding cache_get
  get_result k now d f round_trip same = elim (Option-cases (shown now (f k))) [
    | inl h ↦ elim (Option-cases (dict_get k d)) [
      | inl e ↦ rw (cache_get, e) (rw h refl)
      | inr (item, e) ↦ elim (Bool-cases (leb item.expiry now)) [
        | inl g ↦ rw (cache_get, e) (rw g (rw h refl))
        | inr g ↦ absurd (ground arith)
      ]
    ]
    | inr (v, h) ↦ elim (Option-cases (dict_get k d)) [
      | inl e ↦ absurd (ground arith)
      | inr (item, e) ↦ elim (Bool-cases (leb item.expiry now)) [
        | inl g ↦ absurd (ground arith)
        | inr g ↦
            let stored : item.value ≡ codec.compress v = ground arith in
            rw (cache_get, e)
              (rw g (
                rw h (
                  ap (λ (b : B). decompressed codec ttl (codec.decompress b)) stored
                  ∙ ap (decompressed codec ttl) (round_trip v))))
      ]
    ]
  ]

  call_result :
      (call : CacheCall V) (now : ℕ) (d : Dict (Item B)) (f : Entries V)
      → ((v : V) → codec.decompress (codec.compress v) ≡ returned v)
      → Agrees now d f
      → (cache_call codec ttl call now d).0 ≡ returned (spec_call call now f).0
  unfolding cache_call spec_call
  call_result (set k v) now d f round_trip same = refl
  call_result (get k) now d f round_trip same =
      get_result k now d f round_trip (same k now (omega arith))
  call_result (delete k) now d f round_trip same = refl
  call_result clear now d f round_trip same = refl
  call_result evict now d f round_trip same = refl

  run-Agrees :
      (now : ℕ) (calls : List (ℕ × CacheCall V)) (d : Dict (Item B)) (f : Entries V)
      → ((v : V) → codec.decompress (codec.compress v) ≡ returned v)
      → InOrder now calls
      → IsUnique codec ttl d
      → Agrees now d f
      → cache_run codec ttl calls d ≡ spec_run calls f
  unfolding cache_run spec_run
  run-Agrees now [] d f round_trip ordered unique same = refl
  run-Agrees now ((next, call) ∷ calls) d f round_trip (later, ordered) unique same =
      let still : Agrees next d f = λ key t h. same key t (omega (arith, later, h)) in
      let (unique', same') = call_state call next d f unique still in
      rw (call_result call next d f round_trip still) (
        ap (λ (rest : List (Outcome (Option V))). returned (spec_call call next f).0 ∷ rest)
          (run-Agrees next calls (cache_call codec ttl call next d).1 (spec_call call next f).1
            round_trip ordered unique' same'))

  -- From an empty cache, calls at times that do not go back have the results that a map would give
  -- which holds each value until it expires and in which nothing is evicted: neither the timer nor a
  -- `get` loses a value that has not expired, nor shows one that has. Decompression undoes
  -- compression.
  pub cache_run-spec_run :
      (now : ℕ) (calls : List (ℕ × CacheCall V))
      → ((v : V) → codec.decompress (codec.compress v) ≡ returned v)
      → InOrder now calls
      → cache_run codec ttl calls [] ≡ spec_run calls (λ key. none)
  unfolding dict_get
  cache_run-spec_run now calls round_trip ordered =
      run-Agrees now calls [] (λ key. none) round_trip ordered tt (λ key t later. refl)
