-- ===== src/RedisSynk/Modify.antt =====
-- What `redisModObject` leaves in Redis.
use synk.Base.{
  not, Text, none, [], ◌≡◌, ◌≢◌, refl, sym, ap, subst, ◌∙◌, ◌==◌, text_eq, arith, if◌then◌else◌,
  inl, inr,
}
use mathlib.Core.Logic.{if_pos, if_neg}
use synk.Result.{Result-cases, ok}
use synk.Object.{Object, IsObject}
use synk.Wire.Message.{AddMsg, ModMsg, marshal_add, marshal_mod}
use synk.Mongo.{Session, with_header}
use synk.Mongo.Notices.{mod_notice}
use synk.Redis.{Redis, IsRedis}
use synk.RedisSynk.{
  redis_key, redis_mod_object, store_mod, exec, simple_commands, moved_commands, object_json,
}
use synk.RedisSynk.Store.{Modified, store_mod-stays, store_mod-moves, add_notice-resolve}

module _ {O D W : Type 0} (I : Object O D) (R : Redis W) where
  module _ (law : IsObject I) (ops : IsRedis R) where
    store_mod_stays :
        (psk nsk id key msg_json obj_json : Text) (s : Session O W)
        → psk ≡ nsk
        → store_mod I R psk nsk id key msg_json obj_json s
          ≡ exec R (simple_commands psk nsk key obj_json msg_json) s
    unfolding store_mod
    store_mod_stays psk nsk id key msg_json obj_json s same = rw (if_pos _ same)

    store_mod_moves :
        (psk nsk id key msg_json obj_json : Text) (s : Session O W)
        → psk ≢ nsk
        → (store_mod I R psk nsk id key msg_json obj_json s).0 ≡ none
        → let m : AddMsg D = record {
          state = I.state s.object;
          id = id;
          s_key = nsk;
          ps_key = psk;
          version = I.version s.object;
          type = I.type_key s.object;
        } in
          (add_json : Text) × (marshal_add I.marshal m ≡ ok add_json)
          × (store_mod I R psk nsk id key msg_json obj_json s
              ≡ exec R (moved_commands psk nsk key obj_json msg_json (with_header psk add_json)) s)
    unfolding store_mod
    store_mod_moves psk nsk id key msg_json obj_json s differ h =
        let m : AddMsg D = record {
          state = I.state s.object;
          id = id;
          s_key = nsk;
          ps_key = psk;
          version = I.version s.object;
          type = I.type_key s.object;
        } in
        elim (Result-cases (marshal_add I.marshal m)) [
          | inl (a, added) ↦ (a, added, rw (if_neg _ differ, added) refl)
          | inr (e, failed) ↦ absurd (ground arith)
        ]

    ns_key-stays : (psk nsk : Text) → psk ≡ nsk → (if not (psk == nsk) then nsk else []) ≡ []
    ns_key-stays psk nsk same = ground arith

    ns_key-moves : (psk nsk : Text) → psk ≢ nsk → (if not (psk == nsk) then nsk else []) ≡ nsk
    ns_key-moves psk nsk differ = ground arith

    store_mod-Modified :
        (o : O) (w : W) (msg_json obj_json : Text)
        → let p = (I.resolve o).1 in
          let psk = I.get_prev_sub_key o in
          let nsk = I.get_sub_key o in
          object_json I p ≡ ok obj_json
          → marshal_mod I.marshal (mod_notice I o p (if not (psk == nsk) then nsk else []))
            ≡ ok msg_json
          → (R.view w).string psk ≡ none
          → (R.view w).string nsk ≡ none
          → let r =
              store_mod I R psk nsk
                (I.tag_get_id o)
                (redis_key I o)
                msg_json
                obj_json
                (record { object = p; world = w }) in
            r.0 ≡ none → Modified I R (record { object = o; world = w }) r.1
    store_mod-Modified o w msg_json obj_json json modded fits there h =
        let psk = I.get_prev_sub_key o in
        let nsk = I.get_sub_key o in
        let key = redis_key I o in
        let before : Session O W = record { object = (I.resolve o).1; world = w } in
        let notice : Text → Type 0 =
          λ k. marshal_mod I.marshal (mod_notice I o (I.resolve o).1 k) ≡ ok msg_json in
        elim (text_eq.dec psk nsk) [
          | yes same ↦
              let e = store_mod_stays psk nsk (I.tag_get_id o) key msg_json obj_json before same in
              rw e (
                store_mod-stays I R law ops o w msg_json obj_json same json
                  (subst notice (ns_key-stays psk nsk same) modded) there
                  (ap (λ r. r.0) (sym e) ∙ h))
          | no differ ↦
              let (a, added, e) =
                store_mod_moves psk nsk (I.tag_get_id o) key msg_json obj_json before differ h in
              rw e (
                store_mod-moves I R law ops o w msg_json obj_json a (λ q. differ (sym q)) json
                  (subst notice (ns_key-moves psk nsk differ) modded)
                  (ap (marshal_add I.marshal) (sym (add_notice-resolve I R law ops o)) ∙ added) fits
                  there (ap (λ r. r.0) (sym e) ∙ h))
        ]

    marshalled-redis_mod_object :
        (s : Session O W)
        → (redis_mod_object I R s).0 ≡ none
        → let o = s.object in
          let p = (I.resolve o).1 in
          let psk = I.get_prev_sub_key o in
          let nsk = I.get_sub_key o in
          (m : Text) × (j : Text) × (marshal_mod I.marshal
              (mod_notice I o p (if not (psk == nsk) then nsk else []))
            ≡ ok m)
          × (object_json I p ≡ ok j)
          × (redis_mod_object I R s
              ≡ store_mod I R psk nsk
                  (I.tag_get_id o)
                  (redis_key I o)
                  m
                  j
                  (record s { object = p }))
    unfolding redis_mod_object
    marshalled-redis_mod_object s h =
        let o = s.object in
        let p = (I.resolve o).1 in
        let notice : ModMsg D =
          mod_notice I o p
            (if not (I.get_prev_sub_key o == I.get_sub_key o) then I.get_sub_key o else []) in
        elim (Result-cases (marshal_mod I.marshal notice)) [
          | inl (m, modded) ↦ elim (Result-cases (object_json I p)) [
            | inl (j, json) ↦ (m, j, modded, json, rw (modded, redis_mod_object) (rw json refl))
            | inr (e, failed) ↦ absurd (ground arith)
          ]
          | inr (e, failed) ↦ absurd (ground arith)
        ]

    -- A redisModObject without an error, where no subscription key is the key of a string, has
    -- resolved the object, stored its text, moved its key from the set of its old subscription to
    -- that of its new one (a set under the object's own key is discarded), and published the
    -- messages that MongoSynk would (Notices), for any object and any Redis that keep their laws.
    pub redis_mod_object-Modified :
        (s : Session O W)
        → (R.view s.world).string (I.get_prev_sub_key s.object) ≡ none
        → (R.view s.world).string (I.get_sub_key s.object) ≡ none
        → (redis_mod_object I R s).0 ≡ none
        → Modified I R s (redis_mod_object I R s).1
    redis_mod_object-Modified s fits there h =
        let (m, j, modded, json, e) = marshalled-redis_mod_object s h in
        rw e (
          store_mod-Modified s.object s.world m j json modded fits there
            (ap (λ r. r.0) (sym e) ∙ h))
