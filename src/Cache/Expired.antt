-- ===== src/Cache/Expired.antt =====
-- The keys of the cache and the items that expire (holmes/utils/cache.py).
use canis.Prelude.{
  ℕ, true, ◌≡◌, refl, ap, ◌∙◌, inl, inr, none, some, List, [], ◌∷◌, any, leb, if◌then◌else◌, arith,
  Bool-cases, Text, text_eq, text_eq_iff, Dict, dict_get, dict_set, dict_pop, dict_get-dict_set,
  dict_get-dict_pop,
}
use canis.Cache.Ttl.{Item, Codec, expired_keys, delete_all}

module _ {V B : Type 0} (codec : Codec V B) (ttl : ℕ) where
  abbrev pub IsUnique : Dict (Item B) → Type 0
  IsUnique [] = Unit {0}
  IsUnique ((key, item) ∷ d) = (dict_get key d ≡ none) × IsUnique d

  pub dict_set-IsUnique :
      (key : Text) (item : Item B) (d : Dict (Item B)) → IsUnique d → IsUnique (dict_set key item d)
  unfolding dict_set dict_get
  dict_set-IsUnique key item [] h = (refl, tt)
  dict_set-IsUnique key item ((i, v) ∷ d) (fresh, h) = elim (Bool-cases (text_eq i key)) [
    | inl e ↦ rw e (fresh, h)
    | inr e ↦ rw e (
      dict_get-dict_set i key item d ∙ ground (arith, text_eq_iff i key, text_eq_iff key i),
      dict_set-IsUnique key item d h,
    )
  ]

  pub dict_pop-IsUnique : (key : Text) (d : Dict (Item B)) → IsUnique d → IsUnique (dict_pop key d)
  unfolding dict_pop dict_get
  dict_pop-IsUnique key [] h = tt
  dict_pop-IsUnique key ((i, v) ∷ d) (fresh, h) = elim (Bool-cases (text_eq i key)) [
    | inl e ↦ rw e (dict_pop-IsUnique key d h)
    | inr e ↦ rw e (dict_get-dict_pop i key d ∙ ground arith, dict_pop-IsUnique key d h)
  ]

  pub delete_all-IsUnique :
      (keys : List Text) (d : Dict (Item B)) → IsUnique d → IsUnique (delete_all codec ttl keys d)
  delete_all-IsUnique [] d h = h
  delete_all-IsUnique (key ∷ keys) d h =
      delete_all-IsUnique keys (dict_pop key d) (dict_pop-IsUnique key d h)

  pub dict_get-delete_all :
      (k : Text) (keys : List Text) (d : Dict (Item B))
      → dict_get k (delete_all codec ttl keys d)
        ≡ (if any (λ key. text_eq key k) keys then none else dict_get k d)
  dict_get-delete_all k [] d = refl
  dict_get-delete_all k (key ∷ keys) d =
      let rest = dict_get-delete_all k keys (dict_pop key d) in
      let popped = dict_get-dict_pop k key d in ground arith

  -- An expired key has an expired item.
  pub expired_keys_item :
      (k : Text) (now : ℕ) (d : Dict (Item B))
      → IsUnique d
      → any (λ key. text_eq key k) (expired_keys codec ttl now d) ≡ true
      → (item : Item B) × ((dict_get k d ≡ some item) × (leb item.expiry now ≡ true))
  unfolding dict_get
  expired_keys_item k now [] h e = absurd (ground arith)
  expired_keys_item k now ((i, v) ∷ d) (fresh, h) e = elim (Bool-cases (text_eq i k)) [
    | inl f ↦ elim (Bool-cases (leb v.expiry now)) [
      | inl g ↦ (v, (rw f refl, g))
      | inr g ↦
          let (item, (found, old)) = expired_keys_item k now d h (ground arith) in
          let same : dict_get i d ≡ dict_get k d =
            ap (λ (j : Text). dict_get j d) ((text_eq_iff i k).0 f) in
          absurd (ground arith)
    ]
    | inr f ↦
        let (item, (found, old)) = expired_keys_item k now d h (ground arith) in
        (item, (rw f found, old))
  ]
