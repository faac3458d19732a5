-- ===== src/Replica/Delivered.antt =====
-- From a call of a Mutator to the browser's copy: what the messages of the call, as they are
-- delivered to the client, do to the copy when the browser reads them.
use synk.Base.{
  Text, Bool, Option, none, some, List, [], ◌∷◌, ◌≡◌, ◌≢◌, refl, sym, ap, subst, ◌∙◌, text_eq,
  arith, if◌then◌else◌, Bool-cases, inl, inr,
}
use synk.Base.Dict
use synk.Base.Index.{Lacks}
use synk.Result.{ok}
use synk.Object.{Object, IsObject}
use synk.Wire.Message.{IsObjectText, marshal_add-IsObjectText, marshal_rem-IsObjectText}
use synk.Mongo.Create.{announce}
use synk.Mongo.Delete.{rem_notice}
use synk.Mongo.Notices.{mod_notice, add_notice, moved_key}
use synk.Client.{SynkClient}
use synk.Client.Delivery.{with_message, deliver, by_diff, by_state, not_told, Informed}
use synk.Client.Informs.{deliver-one, deliver-Informed}
use synk.Replica.{Notice, added, changed, removed, text_of, Script, Copy, IsScript, accept}
use synk.Replica.Accept.{accept-other, shown, accept-diff, accept-whole}
use synk.Replica.Mutator.{Call, creates, modifies, deletes, Announced, Changed, Removed, Told}

-- What the client has subscribed to
abbrev pub subscribed_by : SynkClient → Text → Bool
subscribed_by client key = Dict.contains key client.subscriptions

module _ {O D : Type 0} (I : Object O D) where
  -- What a Modify asks of the keys: a brace would hide where a header ends, and a message that
  -- names no new key says that the object has not moved.
  pub record IsPlain (o : O) : Type 0 where
    pub no_brace : Lacks b'{' (I.get_prev_sub_key o)
    pub named : I.get_sub_key o ≢ []

  abbrev pub PlainFor : Call → O → Type 0
  PlainFor modifies o = IsPlain o
  PlainFor _ o = Unit

module _ {O D V : Type 0} (I : Object O D) (script : Script D V) where
  -- The client's channel has what takes the browser's copy from `m` to `n`.
  pub data Advances (id : Text) (client next : SynkClient) (m n : Option (Copy V)) : Type 0 where
    silent : next ≡ client → m ≡ n → Advances id client next m n
    message :
        (b : Text) (notice : Notice D)
        → next ≡ with_message b client
        → text_of I.marshal notice ≡ ok b
        → accept script (subscribed_by client) id notice m ≡ n
        → Advances id client next m n

  -- One message on one channel
  pub Advances-one :
      (id channel b : Text) (notice : Notice D) (client next : SynkClient) (m n : Option (Copy V))
      → IsObjectText b
      → text_of I.marshal notice ≡ ok b
      → deliver ((channel, b) ∷ []) client ≡ some next
      → (if subscribed_by client channel
          then accept script (subscribed_by client) id notice m
          else m)
        ≡ n
      → Advances id client next m n
  Advances-one id channel b notice client next m n text marshalled h e =
      let d = deliver-one channel b client next text h in
      elim (Bool-cases (subscribed_by client channel)) [
        | inl t ↦ message b notice (d ∙ rw t refl) marshalled (
            sym (ap (λ x. if x then accept script (subscribed_by client) id notice m else m) t) ∙ e)
        | inr f ↦ silent (d ∙ rw f refl) (
            sym (ap (λ x. if x then accept script (subscribed_by client) id notice m else m) f) ∙ e)
      ]

  -- A created object is shown to a browser that had none.
  pub Announced-Advances :
      IsObject I
      → (o p : O) (out : List (Text × Text)) (client next : SynkClient) → Announced I o p out
      → deliver out client ≡ some next
      → Advances (I.tag_get_id p) client next none (shown I script (subscribed_by client) p)
  Announced-Advances law o p out client next told h =
      let same = law.unchanged p told.resolved in
      Advances-one (I.tag_get_id p) (I.get_sub_key p) told.bytes (added (announce I p)) client next
        none _ (marshal_add-IsObjectText I.marshal _ _ told.marshalled) told.marshalled
        (subst (λ x. deliver x client ≡ some next) told.publishes h) (ground (arith, same))

  -- A deleted object goes.
  pub Removed-Advances :
      (o p : O) (out : List (Text × Text)) (client next : SynkClient)
      → Removed I o p out
      → deliver out client ≡ some next
      → Advances (I.tag_get_id o) client next (shown I script (subscribed_by client) o) none
  Removed-Advances o p out client next told h =
      Advances-one (I.tag_get_id o) (I.get_prev_sub_key o) told.bytes (removed (rem_notice I o))
        client next _ none (marshal_rem-IsObjectText _ _ told.marshalled) told.marshalled
        (subst (λ x. deliver x client ≡ some next) told.publishes h) (ground arith)

  -- A changed object goes from its version to the next.
  pub Changed-Advances :
      IsScript I script
      → (o p : O) (out : List (Text × Text)) (client next : SynkClient) → IsPlain I o
      → Changed I o p out
      → deliver out client ≡ some next
      → Advances
          (I.tag_get_id o)
          client
          next
          (shown I script (subscribed_by client) o)
          (shown I script (subscribed_by client) p)
  Changed-Advances law o p out client next plain told h =
      let s = subscribed_by client in
      elim (deliver-Informed I o p out client next plain.no_brace told.notices h) [
        | by_diff b t modded e ↦ message b (changed (mod_notice I o p (moved_key I o))) e modded (
            rw t (
              accept-diff I script s law o p t plain.named told.prev_sub_key told.version
                told.state))
        | by_state b f t whole e ↦
            message b (added (add_notice I o p)) e whole
              (accept-whole I script s o p t told.prev_sub_key (I.tag_get_id o) told.id _)
        | not_told f g e ↦ silent e (rw (f, told.prev_sub_key, g) refl)
      ]

  Informed-other :
      (o p : O) (id : Text) (client next : SynkClient) (m : Option (Copy V))
      → I.tag_get_id o ≢ id
      → I.tag_get_id p ≢ id
      → Informed I o p client next
      → Advances id client next m m
  Informed-other o p id client next m ho hp (by_diff b t modded e) =
      message b (changed (mod_notice I o p (moved_key I o))) e modded (
        accept-other script (subscribed_by client) id (changed (mod_notice I o p (moved_key I o))) m
          ho)
  Informed-other o p id client next m ho hp (by_state b f t whole e) =
      message b (added (add_notice I o p)) e whole
        (accept-other script (subscribed_by client) id (added (add_notice I o p)) m hp)
  Informed-other o p id client next m ho hp (not_told f g e) = silent e refl

  unmoved : (b : Bool) (l m : Option (Copy V)) → l ≡ m → (if b then l else m) ≡ m
  unmoved b l m e = ground arith

  -- A call on another object leaves the copy.
  pub Told-other :
      (c : Call) (o p : O) (out : List (Text × Text)) (id : Text) (client next : SynkClient)
      (m : Option (Copy V))
      → PlainFor I c o
      → Told I c o p out
      → I.tag_get_id p ≢ id
      → deliver out client ≡ some next
      → Advances id client next m m
  Told-other (creates draws) o p out id client next m plain told differ h =
      Advances-one id (I.get_sub_key p) told.bytes (added (announce I p)) client next m m
        (marshal_add-IsObjectText I.marshal _ _ told.marshalled) told.marshalled
        (subst (λ x. deliver x client ≡ some next) told.publishes h)
        (unmoved _ _ m
          (accept-other script (subscribed_by client) id (added (announce I p)) m differ))
  Told-other modifies o p out id client next m plain told differ h =
      Informed-other o p id client next m (λ e. differ (told.id ∙ e)) differ
        (deliver-Informed I o p out client next plain.no_brace told.notices h)
  Told-other deletes o p out id client next m plain told differ h =
      Advances-one id (I.get_prev_sub_key o) told.bytes (removed (rem_notice I o)) client next m m
        (marshal_rem-IsObjectText _ _ told.marshalled) told.marshalled
        (subst (λ x. deliver x client ≡ some next) told.publishes h)
        (unmoved _ _ m (
          accept-other script (subscribed_by client) id (removed (rem_notice I o)) m
            (λ e. differ (ap I.tag_get_id told.object ∙ e))))
