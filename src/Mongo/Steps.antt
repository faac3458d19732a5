-- ===== src/Mongo/Steps.antt =====
-- The steps that the methods of MongoSynk are made of: a call whose error makes a panic, and a
-- message that is marshalled and published.
use synk.Base.{Text, none, [], ◌∷◌, ◌++◌, ◌≡◌, subst, refl, arith}
use synk.Result.{IsOk, Outcome, Result, ok, err, Error, returns, Exec, ◌>>◌}
use synk.Service.{Service, IsService, IsReliable}
use synk.Mongo.{Session, checked, publish_marshalled}

module _ {O W A : Type 0} (reason : Text) (f : W → Error × W) (k : Exec (Session O W) A)
    (s : Session O W) where
  -- What follows a checked call runs if the call has no error.
  pub checked-bind_ok :
      (f s.world).0 ≡ none → (checked reason f >> k) s ≡ k (record s { world = (f s.world).1 })
  unfolding checked
  checked-bind_ok h = ground arith

  -- It has run if the whole returns.
  pub checked-bind_returns :
      (a : A)
      → ((checked reason f >> k) s).0 ≡ returns a
      → ((f s.world).0 ≡ none)
        × ((checked reason f >> k) s ≡ k (record s { world = (f s.world).1 }))
  unfolding checked
  checked-bind_returns a h = ground arith

pub returns_inj : {A : Type 0} (a b : A) → ◌≡◌ {A = Outcome A} (returns a) (returns b) → a ≡ b
returns_inj a b h = cc

-- One message has gone out and no document has changed.
pub record Sent {W Doc : Type 0} (S : Service W Doc) (text : Result Text) (channel : Text) (w v : W)
    : Type 0 where
  pub bytes : Text
  pub marshalled : text ≡ ok bytes
  pub published : S.published v ≡ S.published w ++ (channel, bytes) ∷ []
  pub documents : (k : Text) → S.document k v ≡ S.document k w

pub Sent-subst :
    {W Doc : Type 0} (S : Service W Doc) {r q : Result Text} {channel : Text} {w v : W}
    → r ≡ q
    → Sent S r channel w v
    → Sent S q channel w v
Sent-subst S {channel} {w} {v} e sent = subst (λ x. Sent S x channel w v) e sent

module _ {W Doc : Type 0} (S : Service W Doc) (ops : IsService S) where
  pub publish_marshalled-Sent :
      (r : Result Text) (channel : Text) (w : W)
      → (publish_marshalled S r channel w).0 ≡ none
      → Sent S r channel w (publish_marshalled S r channel w).1
  unfolding publish_marshalled
  publish_marshalled-Sent (err e) channel w h = cc
  publish_marshalled-Sent (ok t) channel w h = record {
    bytes = t;
    marshalled = refl;
    published = ops.published-publish channel t w h;
    documents = λ k. ops.document-publish channel t w k;
  }

  pub publish_marshalled_ok :
      IsReliable S
      → (r : Result Text) (channel : Text) (w : W) → IsOk r
      → (publish_marshalled S r channel w).0 ≡ none
  unfolding publish_marshalled
  publish_marshalled_ok live (ok t) channel w h = live.publishes channel t w
  publish_marshalled_ok live (err e) channel w h = absurd h
