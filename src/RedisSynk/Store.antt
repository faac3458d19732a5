-- ===== src/RedisSynk/Store.antt =====
-- What the two transactions of `redisModObject` do: what `Modify` of MongoSynk promises clients, and
-- the object at its key and in the set of its subscription.
use synk.Base.{Text, none, List, [], ◌∷◌, ◌≡◌, ◌≢◌, refl, sym, subst, text_eq}
use synk.Result.{ok}
use synk.Object.{Object, IsObject}
use synk.Wire.Message.{marshal_add, marshal_mod}
use synk.Mongo.{Session, with_header}
use synk.Mongo.Notices.{mod_notice, add_notice, Notices, stays, moves}
use synk.Redis.{Redis, IsRedis}
use synk.RedisSynk.{redis_key, exec, simple_commands, moved_commands, object_json}
use synk.RedisSynk.Commands.{Stored, run-simple, run-moved}

module _ {O D W : Type 0} (I : Object O D) (R : Redis W) where
  -- What a redisModObject without an error does: the object is resolved, its text is stored, and
  -- clients are told.
  pub record Modified (s t : Session O W) : Type 0 where
    pub resolved : t.object ≡ (I.resolve s.object).1
    pub json : Text
    pub marshalled : object_json I t.object ≡ ok json
    pub out : List (Text × Text)
    pub stored :
        Stored
          (I.get_prev_sub_key s.object)
          (I.get_sub_key s.object)
          (redis_key I s.object)
          json
          out
          (R.view s.world)
          (R.view t.world)
    pub notices : Notices I s.object t.object out

  module _ (law : IsObject I) (ops : IsRedis R) where
    pub store_mod-stays :
        (o : O) (w : W) (msg_json obj_json : Text)
        → I.get_prev_sub_key o ≡ I.get_sub_key o
        → let p = (I.resolve o).1 in
          object_json I p ≡ ok obj_json
          → marshal_mod I.marshal (mod_notice I o p []) ≡ ok msg_json
          → (R.view w).string (I.get_sub_key o) ≡ none
          → let psk = I.get_prev_sub_key o in
            let nsk = I.get_sub_key o in
            let r =
              exec {O = O} R
                (simple_commands psk nsk (redis_key I o) obj_json msg_json)
                (record { object = p; world = w }) in
            r.0 ≡ none → Modified (record { object = o; world = w }) r.1
    unfolding exec
    store_mod-stays o w msg_json obj_json same json modded there h =
        let psk = I.get_prev_sub_key o in
        let nsk = I.get_sub_key o in
        let key = redis_key I o in
        record {
          resolved = refl;
          json = obj_json;
          marshalled = json;
          out = (psk, msg_json) ∷ [];
          stored =
              subst (Stored psk nsk key obj_json ((psk, msg_json) ∷ []) (R.view w))
                (sym (ops.view-transact _ w h (there, (tt, (tt, tt)))))
                (run-simple psk nsk key obj_json msg_json (R.view w) same);
          notices = stays msg_json (sym same) modded refl;
        }

    -- The message of `redisModObject` is that of MongoSynk.
    pub add_notice-resolve :
        (o : O)
        → let p = (I.resolve o).1 in
          record {
            state = I.state p;
            id = I.tag_get_id o;
            s_key = I.get_sub_key o;
            ps_key = I.get_prev_sub_key o;
            version = I.version p;
            type = I.type_key p;
          }
          ≡ add_notice I o p
    add_notice-resolve o =
        let p = (I.resolve o).1 in
        λ i. record {
          state = I.state p;
          id = sym (law.tag_get_id-resolve o) i;
          s_key = sym (law.sub_key-resolve o) i;
          ps_key = I.get_prev_sub_key o;
          version = I.version p;
          type = I.type_key p;
        }

    pub store_mod-moves :
        (o : O) (w : W) (msg_json obj_json add_json : Text)
        → I.get_sub_key o ≢ I.get_prev_sub_key o
        → let p = (I.resolve o).1 in
          object_json I p ≡ ok obj_json
          → marshal_mod I.marshal (mod_notice I o p (I.get_sub_key o)) ≡ ok msg_json
          → marshal_add I.marshal (add_notice I o p) ≡ ok add_json
          → (R.view w).string (I.get_prev_sub_key o) ≡ none
          → (R.view w).string (I.get_sub_key o) ≡ none
          → let psk = I.get_prev_sub_key o in
            let nsk = I.get_sub_key o in
            let r =
              exec {O = O} R
                (moved_commands psk nsk
                  (redis_key I o)
                  obj_json
                  msg_json
                  (with_header psk add_json))
                (record { object = p; world = w }) in
            r.0 ≡ none → Modified (record { object = o; world = w }) r.1
    unfolding exec
    store_mod-moves o w msg_json obj_json add_json differ json modded added fits there h =
        let psk = I.get_prev_sub_key o in
        let nsk = I.get_sub_key o in
        let key = redis_key I o in
        let out = (psk, msg_json) ∷ (nsk, with_header psk add_json) ∷ [] in
        record {
          resolved = refl;
          json = obj_json;
          marshalled = json;
          out = out;
          stored =
              subst (Stored psk nsk key obj_json out (R.view w))
                (sym (ops.view-transact _ w h (fits, (there, (tt, (tt, (tt, tt)))))))
                (run-moved psk nsk key obj_json msg_json (with_header psk add_json) (R.view w)
                  (λ e. differ (sym e)));
          notices = moves msg_json add_json differ modded added refl;
        }
