-- ===== src/Pipe.antt =====
-- Pipe.go: objects and commands that are pumped through channels to Redis. A call of the channel of
-- objects meets a goroutine that panics; the other goroutine sends commands, until one has an error.
pub mod Pump
use synk.Base.{
  ℕ, Text, codes, Bool, true, false, Option, none, some, List, [], ◌∷◌, ◌++◌, length, ltb,
  if◌then◌else◌,
}
use synk.Result.{Error, Outcome, returns, panics}
use synk.Object.{Object}

-- What goes into `MutateRedisChan`
pub data Mutation (O : Type 0) : Type 0 where
  new_obj del_obj mod_obj : O → Mutation O

module _ {O D : Type 0} (I : Object O D) where
  -- The object that a call leaves, and what it sends, if anything. `draws` is what TagInit takes
  -- from rand.Intn.
  unfoldable pub create : (ℕ → ℕ) → O → O × Option (Mutation O)
  create draws obj =
      let resolved = (I.resolve (I.tag_init (I.type_key obj) draws obj)).1 in
      (resolved, some (new_obj (I.init (I.copy resolved))))

  unfoldable pub delete : O → O × Option (Mutation O)
  delete obj = (obj, some (del_obj (I.copy obj)))

  unfoldable pub modify : O → O × Option (Mutation O)
  modify obj =
      if I.changed obj then ((I.resolve obj).1, some (mod_obj (I.copy obj))) else (obj, none)

-- `toRedis`
pub record ToRedis : Type 0 where
  pub command_name : Text
  pub args : List Text

-- `make(chan toRedis, 1000)`
abbrev pub to_redis_length : ℕ
to_redis_length = 1000

-- Where the goroutine of `toRedisChan` is
pub data Pumping : Type 0 where
  pumping : Pumping
  crashed : Text → Pumping

-- `to_redis` is what waits in the channel.
pub record Pipe (W : Type 0) : Type 0 where
  pub to_redis : List ToRedis
  pub pump : Pumping
  pub world : W

-- One step: a call of Publish, the pump's goroutine, or the one that ranges over `MutateRedisChan`
-- and is handed an object.
pub data Event : Type 0 where
  publishes : List Text → Event
  pumps : Event
  mutates : Event

unfoldable pub stopped : Text
stopped = codes "synk: NewSynk: handler.toRedisChan closed!"

-- `conn_do` is `arc.toRedisConn.Do`.
module _ {W : Type 0} (conn_do : ToRedis → W → Error × W) where
  -- A full channel makes Publish wait.
  unfoldable pub publish : List Text → Pipe W → Option (Pipe W)
  publish args s =
      if ltb (length s.to_redis) to_redis_length
      then some (record s {
        to_redis = s.to_redis ++ record { command_name = codes "PUBLISH"; args = args } ∷ [];
      })
      else none

  -- The body of the loop, and the panic behind it
  unfoldable pub after_do : Error × W → Pipe W → Pipe W
  unfolding stopped
  after_do (none, w) s = record s { world = w }
  after_do (some e, w) s = record s { world = w; pump = crashed stopped }

  unfoldable pub pump_next : List ToRedis → Pipe W → Option (Pipe W)
  unfolding after_do
  pump_next [] s = none
  pump_next (val ∷ rest) s = some (after_do (conn_do val s.world) (record s { to_redis = rest }))

  -- A panic of either goroutine ends the program.
  unfoldable pub step : Event → Pipe W → Pumping → Option (Pipe W)
  unfolding publish pump_next
  step event s (crashed e) = none
  step (publishes args) s pumping = publish args s
  step pumps s pumping = pump_next s.to_redis s
  step mutates s pumping =
      some (record s { pump = crashed (codes "Mutate redisChan is not currently supported") })

  unfoldable pub run : List Event → Pipe W → Option (Pipe W)
  unfolding step
  run [] s = some s
  run (event ∷ events) s = elim (step event s s.pump) [ none ↦ none | some t ↦ run events t ]
