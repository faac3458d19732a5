-- ===== src/Redis.antt =====
-- Redis as RedisSynk.go and the scripts of RedisScripts.go use it: a parameter, with what is
-- documented of its commands.
pub mod Memory
use synk.Base.{
  Text, Bool, true, false, Option, none, some, List, [], ◌∷◌, ◌++◌, ◌≡◌, ◌==◌, ◌&&◌, text_eq,
  if◌then◌else◌,
}
use synk.Result.{Result, ok, err, Error}

-- SET, SADD and SREM of one member, DEL, PUBLISH.
pub data Command : Type 0 where
  set : Text → Text → Command
  sadd srem : Text → Text → Command
  del : Text → Command
  publish : Text → Text → Command

-- What a server holds: strings by their keys, the members of sets by theirs, and the messages that
-- have been published on channels.
pub record View : Type 0 where
  pub string : Text → Option Text
  pub member : Text → Text → Bool
  pub log : List (Text × Text)

-- What a command does, where the keys hold what it is for. SET discards what the key holds, of
-- whatever type.
abbrev pub act : Command → View → View
act (set k v) s = record s {
  string = λ j. if j == k then some v else s.string j;
  member = λ j n. if j == k then false else s.member j n;
}
act (sadd k m) s = record s { member = λ j n. if (j == k) && (n == m) then true else s.member j n }
act (srem k m) s = record s { member = λ j n. if (j == k) && (n == m) then false else s.member j n }
act (del k) s = record s {
  string = λ j. if j == k then none else s.string j;
  member = λ j n. if j == k then false else s.member j n;
}
act (publish c m) s = record s { log = s.log ++ (c, m) ∷ [] }

abbrev pub run : List Command → View → View
run [] s = s
run (c ∷ cs) s = run cs (act c s)

-- A set command needs a key without a string.
abbrev pub Fits : Command → View → Type 0
Fits (sadd k m) s = s.string k ≡ none
Fits (srem k m) s = s.string k ≡ none
Fits _ s = Unit

abbrev pub AllFit : List Command → View → Type 0
AllFit [] s = Unit
AllFit (c ∷ cs) s = Fits c s × AllFit cs (act c s)

-- `call` is `redis.call` in a script, and `set_nx` that of SET with NX; `false` is the nil reply.
-- `eval` runs a script, and `transact` sends the commands between MULTI and EXEC.
pub record Redis (W : Type 0) : Type 0 where
  pub call : Command → W → Result Bool × W
  pub set_nx : Text → Text → W → Result Bool × W
  pub eval : (W → Result Text × W) → W → Result Text × W
  pub transact : List Command → W → Error × W
  pub view : W → View

-- Documented behaviour: a command without an error has acted, if it fits. SET with NX has done
-- nothing if its reply is nil; if not, its key held no string, and it has done what SET does. A
-- script that replies has run; EXEC without an error has run all the commands, if each fits when
-- its turn comes.
pub record IsRedis {W : Type 0} (R : Redis W) : Type 0 where
  pub view-call :
      (c : Command) (w : W) (b : Bool)
      → (R.call c w).0 ≡ ok b
      → Fits c (R.view w)
      → R.view (R.call c w).1 ≡ act c (R.view w)
  pub set_nx_nil :
      (k v : Text) (w : W) → (R.set_nx k v w).0 ≡ ok false → R.view (R.set_nx k v w).1 ≡ R.view w
  pub view-set_nx :
      (k v : Text) (w : W)
      → (R.set_nx k v w).0 ≡ ok true
      → ((R.view w).string k ≡ none) × (R.view (R.set_nx k v w).1 ≡ act (set k v) (R.view w))
  pub eval_lem :
      (f : W → Result Text × W) (w : W) (t : Text) → (R.eval f w).0 ≡ ok t → R.eval f w ≡ f w
  pub view-transact :
      (cs : List Command) (w : W)
      → (R.transact cs w).0 ≡ none
      → AllFit cs (R.view w)
      → R.view (R.transact cs w).1 ≡ run cs (R.view w)
