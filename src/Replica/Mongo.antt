-- ===== src/Replica/Mongo.antt =====
-- MongoSynk as a Mutator.
use synk.Base.{Text, none, List, ◌++◌, ◌≡◌, refl}
use synk.Result.{returns}
use synk.Object.{Object, IsObject}
use synk.Service.{Service, IsService}
use synk.Mongo.{Bson, Session, create, modify, delete}
use synk.Mongo.Create.{create-Created}
use synk.Mongo.Modify.{modify-Modified}
use synk.Mongo.Delete.{delete-Deleted}
use synk.Replica.Mutator.{Call, creates, modifies, deletes, Mutator, perform, Told, IsMutator}

module _ {O D W Doc : Type 0} (I : Object O D) (S : Service W Doc) (bson : Bson O Doc)
    (Typed : O → Type 0) where
  -- The object that a call leaves can be read back from its document.
  abbrev pub Readable : Call → Session O W → Type 0
  Readable (creates draws) s = Typed (create I S bson draws s).1.object
  Readable modifies s = Typed (modify I S bson s).1.object
  Readable deletes s = Unit

  abbrev pub mongo_mutator : Mutator O W
  mongo_mutator = record {
    create = create I S bson;
    modify = modify I S bson;
    delete = delete I S;
    published = S.published;
    Allowed = Readable;
  }

  mongo_tells :
      IsObject I
      → IsService S
      → (c : Call) (s : Session O W) → (perform mongo_mutator c s).0 ≡ returns none
      → let t = (perform mongo_mutator c s).1 in
        (out : List (Text × Text)) × (S.published t.world ≡ S.published s.world ++ out)
        × Told I c s.object t.object out
  mongo_tells law ops (creates draws) s h =
      let done = (create-Created I S bson law ops draws s _ h).1 in
      (
        _,
        done.published,
        record {
          resolved = done.resolved;
          bytes = done.bytes;
          marshalled = done.announced;
          publishes = refl;
        },
      )
  mongo_tells law ops modifies s h =
      let done = (modify-Modified I S bson law ops s _ h).1 in
      (
        done.out,
        done.published,
        record {
          prev_sub_key = done.object.prev_sub_key;
          id = done.object.id;
          version = done.object.version;
          state = done.object.state;
          notices = done.notices;
        },
      )
  mongo_tells law ops deletes s h =
      let done = (delete-Deleted I S ops s _ h).1 in
      (
        _,
        done.published,
        record {
          object = done.object;
          bytes = done.bytes;
          marshalled = done.marshalled;
          publishes = refl;
        },
      )

  -- For an object and a service that keep their laws, MongoSynk tells clients what a Mutator must.
  pub mongo_mutator-IsMutator : IsObject I → IsService S → IsMutator I mongo_mutator
  mongo_mutator-IsMutator law ops = record { tells = λ c s allowed h. mongo_tells law ops c s h }
