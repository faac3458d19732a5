-- ===== src/Replica/History.antt =====
-- The life of an object, as one client's browser follows it: the calls of a Mutator on the object
-- and on others, in any order, and the client's writes to the web socket between them.
use synk.Base.{
  ap, ◌∙◌, refl, Text, Bool, true, false, none, some, List, [], ◌∷◌, ◌++◌, ◌≡◌, ◌≢◌, text_eq,
}
use synk.Result.{Outcome, Error, returns}
use synk.Object.{Object}
use synk.Mongo.{Session}
use synk.Client.{SynkClient}
use synk.Client.Informs.{deliver-subscriptions}
use synk.Client.Delivery.{deliver}
use synk.Replica.Mutator.{Call, creates, modifies, deletes, Mutator, perform, fresh}
use synk.Replica.Delivered.{PlainFor}

-- The object, whether it has been created and not deleted, the services, the client, and what it
-- has written to the web socket
pub record Scene (O W : Type 0) : Type 0 where
  pub object : O
  pub live : Bool
  pub world : W
  pub client : SynkClient
  pub sent : List Text

module _ {O D : Type 0} (I : Object O D) where
  -- What setters do: they leave the tag alone, and the state until Resolve, too.
  pub record Edited (o p : O) : Type 0 where
    pub id : I.tag_get_id p ≡ I.tag_get_id o
    pub state : I.state p ≡ I.state o
    pub version : I.version p ≡ I.version o
    pub prev_sub_key : I.get_prev_sub_key p ≡ I.get_prev_sub_key o
    pub tag_sub : I.tag_sub p ≡ I.tag_sub o

  -- An object is created, under its ID, when it is not there, and modified and deleted when it is.
  abbrev pub Due : Text → Call → Bool → O → Type 0
  Due id (creates draws) live p = (live ≡ false) × (I.tag_get_id p ≡ id)
  Due id modifies live p = live ≡ true
  Due id deletes live p = live ≡ true

  abbrev pub live_after : Call → Bool
  live_after (creates draws) = true
  live_after modifies = true
  live_after deletes = false

module _ {O D W : Type 0} (I : Object O D) (M : Mutator O W) (id : Text) where
  abbrev pub call : Call → O → W → Outcome Error × Session O W
  call c o w = perform M c (record { object = o; world = w })

  -- What happens next: the object is edited, or made anew before its creation; a call on it, or on
  -- one with another ID, returns nil, and Receive takes what the call published; or the client
  -- writes the next message of its channel.
  pub data Step (s t : Scene O W) : Type 0 where
    edits : (p : O) → s.live ≡ true → Edited I s.object p → t ≡ record s { object = p } → Step s t
    prepares : (p : O) → s.live ≡ false → t ≡ record s { object = p } → Step s t
    calls :
        (c : Call) (next : SynkClient)
        → M.Allowed c (record { object = s.object; world = s.world })
        → PlainFor I c s.object
        → Due I id c s.live (call c s.object s.world).1.object
        → (call c s.object s.world).0 ≡ returns none
        → deliver (fresh M s.world (call c s.object s.world).1.world) s.client ≡ some next
        → t ≡ record s {
          object = (call c s.object s.world).1.object;
          live = live_after I c;
          world = (call c s.object s.world).1.world;
          client = next;
        }
        → Step s t
    calls_other :
        (c : Call) (q : O) (next : SynkClient)
        → M.Allowed c (record { object = q; world = s.world })
        → PlainFor I c q
        → I.tag_get_id (call c q s.world).1.object ≢ id
        → (call c q s.world).0 ≡ returns none
        → deliver (fresh M s.world (call c q s.world).1.world) s.client ≡ some next
        → t ≡ record s { world = (call c q s.world).1.world; client = next }
        → Step s t
    writes :
        (b : Text) (bs : List Text)
        → s.client.to_web_socket ≡ b ∷ bs
        → t ≡ record s { client = record s.client { to_web_socket = bs }; sent = s.sent ++ b ∷ [] }
        → Step s t

  pub data History : Scene O W → Scene O W → Type 0 where
    now : (s : Scene O W) → History s s
    later : (s m t : Scene O W) → Step s m → History m t → History s t

module _ {O D W : Type 0} (I : Object O D) (M : Mutator O W) (id : Text) where
  Step-subscriptions :
      (s t : Scene O W) → Step I M id s t → t.client.subscriptions ≡ s.client.subscriptions
  Step-subscriptions s t (edits p live edited e) = ap (λ x. x.client.subscriptions) e
  Step-subscriptions s t (prepares p gone e) = ap (λ x. x.client.subscriptions) e
  Step-subscriptions s t (calls c next allowed plain due ok got e) =
      ap (λ x. x.client.subscriptions) e ∙ deliver-subscriptions _ s.client next got
  Step-subscriptions s t (calls_other c q next allowed plain other ok got e) =
      ap (λ x. x.client.subscriptions) e ∙ deliver-subscriptions _ s.client next got
  Step-subscriptions s t (writes b bs first e) = ap (λ x. x.client.subscriptions) e

  pub History-subscriptions :
      (s t : Scene O W) → History I M id s t → t.client.subscriptions ≡ s.client.subscriptions
  History-subscriptions s _ (now _) = refl
  History-subscriptions s t (later _ m _ step rest) =
      History-subscriptions m t rest ∙ Step-subscriptions s m step
