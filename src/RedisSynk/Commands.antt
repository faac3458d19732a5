-- ===== src/RedisSynk/Commands.antt =====
-- What the transactions of `redisModObject` leave on a server.
use synk.Base.{
  Text, some, List, [], ◌∷◌, ◌++◌, ◌≡◌, ◌≢◌, refl, true, false, ◌==◌, text_eq, arith, if◌then◌else◌,
  append_assoc,
}
use synk.Redis.{View, run}
use synk.RedisSynk.{simple_commands, moved_commands}

-- What a change of an object does to the server: its text is stored, whatever its key held, and
-- the key is a member of the set where the object is and not of the one where it was.
pub record Stored (psk nsk key obj_json : Text) (out : List (Text × Text)) (v w : View)
    : Type 0 where
  pub string : (k : Text) → w.string k ≡ (if k == key then some obj_json else v.string k)
  pub member :
      (k m : Text)
      → w.member k m ≡ (
          if k == key
          then false
          else if m == key
          then (if k == nsk then true else (if k == psk then false else v.member k m))
          else v.member k m)
  pub log : w.log ≡ v.log ++ out

pub run-simple :
    (psk nsk key obj_json msg_json : Text) (v : View)
    → psk ≡ nsk
    → Stored psk nsk key obj_json
        ((psk, msg_json) ∷ [])
        v
        (run (simple_commands psk nsk key obj_json msg_json) v)
run-simple psk nsk key obj_json msg_json v same = record {
  string = λ k. refl;
  member = λ k m. ground arith;
  log = refl;
}

pub run-moved :
    (psk nsk key obj_json msg_json add_json : Text) (v : View)
    → psk ≢ nsk
    → Stored psk nsk key obj_json
        ((psk, msg_json) ∷ (nsk, add_json) ∷ [])
        v
        (run (moved_commands psk nsk key obj_json msg_json add_json) v)
run-moved psk nsk key obj_json msg_json add_json v differ = record {
  string = λ k. refl;
  member = λ k m. ground arith;
  log = append_assoc v.log ((psk, msg_json) ∷ []) ((nsk, add_json) ∷ []);
}
