-- ===== src/Replica.antt =====
-- What the messages to the browser mean, by the comments at their types at the end of MongoSynk.go
-- and at `V` in Tag.go, for the copy of one object that a browser keeps: an abstract view, against
-- which the calls of a Mutator and the deliveries to a client are set.
pub mod Mutator
pub mod Accept
pub mod Delivered
pub mod History
pub mod Copies
pub mod Mirrored
pub mod Versions
pub mod Late
pub mod Lagging
pub mod Snapshot
pub mod Mongo
pub mod Stored
pub mod Loads
pub mod Progress
pub mod Unique
pub mod Found
pub mod Subscribe
pub mod Redis
pub mod Human
pub mod Orc
use synk.Base.{
  ℕ, Text, Bool, Option, none, some, List, [], ◌∷◌, ◌≡◌, ◌==◌, ◌||◌, nat_eq, text_eq, if◌then◌else◌,
}
use synk.Result.{Result, ok}
use synk.Object.{Object, next_version}
use synk.Wire.Json.{Json}
use synk.Wire.Message.{AddMsg, ModMsg, RemMsg, marshal_add, marshal_mod, marshal_rem}

-- The three messages
pub data Notice (D : Type 0) : Type 0 where
  added : AddMsg D → Notice D
  changed : ModMsg D → Notice D
  removed : RemMsg → Notice D

abbrev pub text_of : {D : Type 0} → (D → Result Json) → Notice D → Result Text
text_of marshal (added m) = marshal_add marshal m
text_of marshal (changed m) = marshal_mod marshal m
text_of marshal (removed m) = marshal_rem m

-- What the developer gives the browser, by the README: objects that are constructed from a state
-- and updated by a diff.
pub record Script (D V : Type 0) : Type 0 where
  pub construct : D → V
  pub update : D → V → V

-- The browser's copy of an object
pub record Copy (V : Type 0) : Type 0 where
  pub content : V
  pub version : ℕ

module _ {O D V : Type 0} (I : Object O D) (script : Script D V) where
  -- The copy of an object as it was last resolved
  abbrev pub copy_of : O → Copy V
  copy_of o = record { content = script.construct (I.state o); version = I.version o }

  -- The state and the diff of an object are what the constructor and the update ask for.
  pub record IsScript : Type 0 where
    pub update-resolve :
        (o : O)
        → script.update (I.resolve o).0 (script.construct (I.state o))
          ≡ script.construct (I.state (I.resolve o).1)

module _ {D V : Type 0} (script : Script D V) (subscribed : Text → Bool) where
  -- A diff is for the version before its own, and takes the object away if it moves to where the
  -- browser has not subscribed.
  abbrev pub follow : ModMsg D → Copy V → Option (Copy V)
  follow m c =
      if m.version == next_version c.version
      then (if (m.ns_key == []) || subscribed m.ns_key
          then some (record { content = script.update m.diff c.content; version = m.version })
          else none)
      else some c

  -- The browser's copy of the object with the ID, if it has one, after a message
  abbrev pub accept : Text → Notice D → Option (Copy V) → Option (Copy V)
  accept id (added m) mirror =
      if m.id == id
      then some (record { content = script.construct m.state; version = m.version })
      else mirror
  accept id (changed m) none = none
  accept id (changed m) (some c) = if m.id == id then follow m c else some c
  accept id (removed m) mirror = if m.id == id then none else mirror

  -- The texts are messages that take the browser's copy from the one to the other.
  abbrev pub Reads :
      (D → Result Json) → Text → List Text → Option (Copy V) → Option (Copy V) → Type 0
  Reads marshal id [] m n = m ≡ n
  Reads marshal id (b ∷ bs) m n =
      (notice : Notice D) × (text_of marshal notice ≡ ok b)
      × Reads marshal id bs (accept id notice m) n
