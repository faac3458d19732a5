-- ===== src/RedisSynk/Key.antt =====
-- The keys of objects in Redis.
use synk.Base.{
  ℕ, suc, ◌+◌, Text, some, [], ◌∷◌, ◌++◌, length, take, drop, take-length-append, ◌≡◌, refl, ap,
  ◌∙◌, arith,
}
use synk.Base.Index.{Lacks, last_index, last_index-append, split_last}
use synk.Object.{Object}
use synk.RedisSynk.{redis_key, redis_type_and_id}

split_at_index :
    (key : Text) (i : ℕ)
    → last_index key b':' ≡ some i
    → redis_type_and_id key ≡ (take i key, drop (i + 1) key)
unfolding redis_type_and_id
split_at_index key i h = rw (h, redis_type_and_id) refl

drop_past : (s t : Text) (c : ℕ) → drop (length s + 1) (s ++ c ∷ t) ≡ t
drop_past [] t c = refl
drop_past (x ∷ s) t c =
    let next : length (x ∷ s) + 1 ≡ suc (length s + 1) = omega arith in
    ap (λ n. drop n ((x ∷ s) ++ c ∷ t)) next ∙ drop_past s t c

-- The type and the ID can be read from an object's key, if the ID has no colon.
pub redis_type_and_id-redis_key :
    {O D : Type 0} (I : Object O D) (o : O)
    → Lacks b':' (I.tag_get_id o)
    → redis_type_and_id (redis_key I o) ≡ (I.type_key o, I.tag_get_id o)
unfolding redis_key
redis_type_and_id-redis_key I o h =
    split_at_index (redis_key I o) (length (I.type_key o))
      (last_index-append b':' (I.type_key o) (I.tag_get_id o) h)
    ∙ λ i. (
      take-length-append (I.type_key o) (b':' ∷ I.tag_get_id o) i,
      drop_past (I.type_key o) (I.tag_get_id o) b':' i,
    )

-- Two objects with IDs that have no colon share a key only if they have the same type and ID.
pub redis_key-injective :
    {O D : Type 0} (I : Object O D) (a b : O)
    → Lacks b':' (I.tag_get_id a)
    → Lacks b':' (I.tag_get_id b)
    → redis_key I a ≡ redis_key I b
    → (I.type_key a ≡ I.type_key b) × (I.tag_get_id a ≡ I.tag_get_id b)
unfolding redis_key
redis_key-injective I a b ha hb e = split_last b':' _ _ _ _ ha hb e
