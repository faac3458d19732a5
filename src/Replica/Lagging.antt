-- ===== src/Replica/Lagging.antt =====
-- A browser that subscribes while an object changes: it loads the object at some moment, and then
-- reads all the messages since it subscribed, of which some are older than what it has loaded.
use synk.Base.{
  ℕ, Text, Bool, true, false, Option, none, some, List, [], ◌∷◌, ◌++◌, ◌≡◌, ◌≢◌, refl, sym, ap,
  subst, ◌∙◌, text_eq, append_assoc, ◌⊎◌, inl, inr,
}
use synk.Object.{Object, IsObject, next_version}
use synk.Replica.{Script, Copy, IsScript, Reads}
use synk.Replica.Mutator.{Call, creates, modifies, deletes, Told}
use synk.Replica.Delivered.{subscribed_by, PlainFor, Advances}
use synk.Client.{SynkClient}
use synk.Client.Delivery.{deliver}
use synk.Replica.Late.{Behind, Lags, Announced-Lags, Changed-Lags}
use synk.Replica.History.{Scene, Due, live_after}
use synk.Replica.Copies.{copy_in, IsOf, delivered-Reads, Advances-subscriptions}

-- A copy of this version, if it is one
abbrev pub HasVersion : {V : Type 0} → Option (Copy V) → ℕ → Type 0
HasVersion none v = Unit
HasVersion (some c) v = c.version ≡ v

HasVersion-Behind :
    {V : Type 0} (l : Option (Copy V)) (v w : ℕ) → HasVersion l v → w ≢ next_version v → Behind l w
HasVersion-Behind none v w h n = tt
HasVersion-Behind (some c) v w h n = λ e. n (e ∙ ap next_version h)

module _ {O D V : Type 0} (I : Object O D) (script : Script D V) (id : Text) where
  -- The browser has what it has loaded, or what it should have, once it has read all that the client
  -- has written and will write.
  pub record IsLagging {W : Type 0} (l : Option (Copy V)) (s : Scene O W) : Type 0 where
    pub same : IsOf I script id s.live s.object
    pub copy : Option (Copy V)
    pub read :
        Reads script (subscribed_by s.client) I.marshal id (s.sent ++ s.client.to_web_socket) l copy
    pub lags : (copy ≡ l) ⊎ (copy ≡ copy_in I script id s.client.subscriptions s.live s.object)

  -- The object is not deleted, and its diff is not for the version.
  abbrev pub IsOlder : Call → ℕ → O → Type 0
  IsOlder (creates draws) v p = Unit
  IsOlder modifies v p = I.version p ≢ next_version v
  IsOlder deletes v p = ⊥

  live-IsOf : (live : Bool) (o : O) → live ≡ true → IsOf I script id live o → I.tag_get_id o ≡ id
  live-IsOf true o h same = same
  live-IsOf false o h same = cc

  -- What a delivery may make of the copy
  abbrev pub Next :
      {W : Type 0} → Option (Copy V) → Scene O W → O → Bool → SynkClient → Option (Copy V) → Type 0
  Next l s p live next copy =
      (m : Option (Copy V)) × Advances I script id s.client next copy m
      × ((m ≡ l) ⊎ (m ≡ copy_in I script id s.client.subscriptions live p))

  pub delivered :
      {W : Type 0} (l : Option (Copy V)) (s : Scene O W) (p : O) (live : Bool) (w : W)
      (next : SynkClient)
      → (h : IsLagging l s) → IsOf I script id live p
      → Next l s p live next h.copy
      → IsLagging l (record s { object = p; live = live; world = w; client = next })
  delivered l s p live w next h same (m, step, lags) = record {
    same = same;
    copy = m;
    read = delivered-Reads I script id s.client next s.sent l h.copy m step h.read;
    lags =
        subst (λ subs. (m ≡ l) ⊎ (m ≡ copy_in I script id subs live p))
          (sym (Advances-subscriptions I script id s.client next _ _ step)) lags;
  }

  -- From either copy
  pub Lags-Next :
      {W : Type 0} (l : Option (Copy V)) (s : Scene O W) (p : O) (live : Bool) (next : SynkClient)
      (copy : Option (Copy V))
      → (copy ≡ l) ⊎ (copy ≡ copy_in I script id s.client.subscriptions s.live s.object)
      → Next l s p live next l
      → Advances I script id s.client next
          (copy_in I script id s.client.subscriptions s.live s.object)
          (copy_in I script id s.client.subscriptions live p)
      → Next l s p live next copy
  Lags-Next l s p live next copy (inl e) behind exact = subst (Next l s p live next) (sym e) behind
  Lags-Next l s p live next copy (inr e) behind exact =
      subst (Next l s p live next) (sym e) (_, exact, inr refl)

  pub same-IsLagging :
      {W : Type 0} (l : Option (Copy V)) (s : Scene O W) (p : O)
      → IsOf I script id s.live p
      → copy_in I script id s.client.subscriptions s.live p
        ≡ copy_in I script id s.client.subscriptions s.live s.object
      → IsLagging l s
      → IsLagging l (record s { object = p })
  same-IsLagging l s p same e h = record {
    same = same;
    copy = h.copy;
    read = h.read;
    lags = subst (λ c. (h.copy ≡ l) ⊎ (h.copy ≡ c)) (sym e) h.lags;
  }

  pub written :
      {W : Type 0} (l : Option (Copy V)) (s : Scene O W) (b : Text) (bs : List Text)
      → s.client.to_web_socket ≡ b ∷ bs
      → IsLagging l s
      → IsLagging l
          (record s { client = record s.client { to_web_socket = bs }; sent = s.sent ++ b ∷ [] })
  written l s b bs first h = record {
    same = h.same;
    copy = h.copy;
    read = rw (append_assoc s.sent (b ∷ []) bs, sym first) h.read;
    lags = h.lags;
  }

  module _ (law : IsObject I) (scripted : IsScript I script) where
    -- A call that is older than what the browser has loaded
    pub call-Next :
        {W : Type 0} (l : Option (Copy V)) (v : ℕ) (s : Scene O W) (c : Call) (p : O)
        (out : List (Text × Text)) (next : SynkClient)
        → HasVersion l v
        → PlainFor I c s.object
        → Due I id c s.live p
        → IsOf I script id s.live s.object
        → Told I c s.object p out
        → IsOlder c v p
        → deliver out s.client ≡ some next
        → Next l s p (live_after I c) next l
    call-Next l v s (creates draws) p out next loaded plain due same told older got =
        subst (λ k. Lags I script k s.client next l p) due.1
          (Announced-Lags I script law s.object p out s.client next l told got)
    call-Next l v s modifies p out next loaded plain due same told older got =
        subst (λ k. Lags I script k s.client next l p) (live-IsOf s.live s.object due same)
          (Changed-Lags I script s.object p out s.client next l plain told
            (HasVersion-Behind l v (I.version p) loaded older) got)
    call-Next l v s deletes p out next loaded plain due same told older got = absurd older
