-- ===== src/Replica/Late.antt =====
-- A browser whose copy is ahead of the messages that it reads: it has loaded the object, and
-- messages from before the load are still on their way.
use synk.Base.{
  ℕ, Text, Bool, Option, none, some, List, ◌≡◌, ◌≢◌, refl, sym, subst, text_eq, if◌then◌else◌, ◌⊎◌,
  inl, inr, Bool-cases, arith,
}
use synk.Object.{Object, IsObject, next_version}
use synk.Wire.Message.{ModMsg, marshal_add-IsObjectText}
use synk.Mongo.Create.{announce}
use synk.Mongo.Notices.{mod_notice, add_notice, moved_key}
use synk.Client.{SynkClient}
use synk.Client.Delivery.{deliver, by_diff, by_state, not_told}
use synk.Client.Informs.{deliver-Informed}
use synk.Replica.{Script, Copy, added, changed, accept, copy_of}
use synk.Replica.Accept.{shown, accept-stale, accept-whole}
use synk.Replica.Mutator.{Announced, Changed}
use synk.Replica.Delivered.{subscribed_by, IsPlain, Advances, silent, message, Advances-one}

-- A diff for the version is not for this copy.
abbrev pub Behind : {V : Type 0} → Option (Copy V) → ℕ → Type 0
Behind none v = Unit
Behind (some c) v = v ≢ next_version c.version

module _ {O D V : Type 0} (I : Object O D) (script : Script D V) where
  accept-Behind :
      (subscribed : Text → Bool) (id : Text) (m : ModMsg D) (l : Option (Copy V))
      → Behind l m.version
      → accept script subscribed id (changed m) l ≡ l
  accept-Behind subscribed id m none h = refl
  accept-Behind subscribed id m (some c) h = accept-stale script subscribed id m c h

  -- The copy stays, or becomes what it should be after the call.
  abbrev pub Lags : Text → SynkClient → SynkClient → Option (Copy V) → O → Type 0
  Lags id client next l p =
      (m : Option (Copy V)) × Advances I script id client next l m
      × ((m ≡ l) ⊎ (m ≡ shown I script (subscribed_by client) p))

  pub Announced-Lags :
      IsObject I
      → (o p : O) (out : List (Text × Text)) (client next : SynkClient) (l : Option (Copy V))
      → Announced I o p out
      → deliver out client ≡ some next
      → Lags (I.tag_get_id p) client next l p
  Announced-Lags law o p out client next l told h =
      let same = law.unchanged p told.resolved in
      let s = subscribed_by client in
      let after = if s (I.get_sub_key p) then some (copy_of I script p) else l in
      (
        after,
        Advances-one I script (I.tag_get_id p) (I.get_sub_key p) told.bytes (added (announce I p))
            client next l after (marshal_add-IsObjectText I.marshal _ _ told.marshalled)
            told.marshalled (subst (λ x. deliver x client ≡ some next) told.publishes h)
            (ground arith),
        elim (Bool-cases (s (I.get_sub_key p))) [
          | inl t ↦ inr (rw (t, sym same, t) refl)
          | inr f ↦ inl (rw f refl)
        ],
      )

  pub Changed-Lags :
      (o p : O) (out : List (Text × Text)) (client next : SynkClient) (l : Option (Copy V))
      → IsPlain I o
      → Changed I o p out
      → Behind l (I.version p)
      → deliver out client ≡ some next
      → Lags (I.tag_get_id o) client next l p
  Changed-Lags o p out client next l plain told behind h =
      let s = subscribed_by client in
      elim (deliver-Informed I o p out client next plain.no_brace told.notices h) [
        | by_diff b t modded e ↦ (
          l,
          message b (changed (mod_notice I o p (moved_key I o))) e modded
              (accept-Behind s (I.tag_get_id o) (mod_notice I o p (moved_key I o)) l behind),
          inl refl,
        )
        | by_state b f t whole e ↦ (
          shown I script s p,
          message b (added (add_notice I o p)) e whole
              (accept-whole I script s o p t told.prev_sub_key (I.tag_get_id o) told.id l),
          inr refl,
        )
        | not_told f g e ↦ (l, silent e refl, inl refl)
      ]
