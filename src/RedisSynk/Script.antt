-- ===== src/RedisSynk/Script.antt =====
-- What the script of `redisNewObject` does.
use synk.Base.{
  Text, codes, Bool-cases, none, [], ◌∷◌, ◌≡◌, ◌≢◌, refl, sym, ap, ◌∙◌, ◌⊎◌, inl, inr, Bool,
  text_eq, arith,
}
use synk.Result.{ok_inj, Result, Result-cases, ok}
use synk.Redis.{Redis, IsRedis, View, set, sadd, publish, run, act}
use synk.RedisSynk.{set_and_publish, then_call, after_set, add_and_publish}

string-set :
    (k o j : Text) (v : View) → j ≢ k → v.string j ≡ none → (act (set k o) v).string j ≡ none
string-set k o j v n h = ground arith

module _ {W : Type 0} (R : Redis W) where
  then_call_ok :
      (c : W → Result Bool × W) (next : Bool → W → Result Text × W) (w : W) (t : Text)
      → (then_call R c next w).0 ≡ ok t
      → (b : Bool) × ((c w).0 ≡ ok b) × (then_call R c next w ≡ next b (c w).1)
  unfolding then_call
  then_call_ok c next w t h = elim (Result-cases (c w).0) [
    | inl (b, e) ↦ (b, e, rw (e, then_call) refl)
    | inr (e, failed) ↦ absurd (ground arith)
  ]

  module _ (ops : IsRedis R) where
    add_and_publish_lem :
        (key sub msg_json : Text) (w : W) (t : Text)
        → (R.view w).string sub ≡ none
        → (add_and_publish R key sub msg_json w).0 ≡ ok t
        → (t ≡ codes "OK")
          × (R.view (add_and_publish R key sub msg_json w).1
              ≡ run (sadd sub key ∷ publish sub msg_json ∷ []) (R.view w))
    unfolding add_and_publish
    add_and_publish_lem key sub msg_json w t fits h =
        let last : W → Result Text × W = λ w. (ok (codes "OK"), w) in
        let (b, added, e) =
          then_call_ok (R.call (sadd sub key))
            (λ b. then_call R (R.call (publish sub msg_json)) (λ c. last)) w t h in
        let (c, sent, f) =
          then_call_ok (R.call (publish sub msg_json)) (λ c. last) (R.call (sadd sub key) w).1 t
            (ap (λ r. r.0) (sym e) ∙ h) in
        let all = e ∙ f in
        (
          ok_inj t (codes "OK") (sym h ∙ ap (λ r. r.0) all),
          ap (λ r. R.view r.1) all
              ∙ ops.view-call (publish sub msg_json) _ c sent tt
              ∙ ap (act (publish sub msg_json)) (ops.view-call (sadd sub key) w b added fits),
        )

    -- A script that replies has refused and changed nothing, or the key was free and it has stored,
    -- added and published, in this order.
    pub set_and_publish_lem :
        (key sub obj_json msg_json : Text) (w : W) (t : Text)
        → (R.view w).string sub ≡ none
        → sub ≢ key
        → (set_and_publish R key sub obj_json msg_json w).0 ≡ ok t
        → let v = R.view (set_and_publish R key sub obj_json msg_json w).1 in
          ((t ≡ codes "NO") × (v ≡ R.view w))
          ⊎ ((t ≡ codes "OK")
              × ((R.view w).string key ≡ none)
              × (v ≡ run (set key obj_json ∷ sadd sub key ∷ publish sub msg_json ∷ []) (R.view w)))
    unfolding set_and_publish after_set
    set_and_publish_lem key sub obj_json msg_json w t fits apart h =
        let (b, replied, e) =
          then_call_ok (R.set_nx key obj_json) (after_set R key sub msg_json) w t h in
        elim (Bool-cases b) [
          | inl set_now ↦
              let (free, stored) =
                ops.view-set_nx key obj_json w (replied ∙ ap (λ x. ok x) set_now) in
              let all =
                e ∙ ap (λ x. after_set R key sub msg_json x (R.set_nx key obj_json w).1) set_now in
              let (ended, v) =
                add_and_publish_lem key sub msg_json (R.set_nx key obj_json w).1 t
                  (ap (λ v. v.string sub) stored
                    ∙ string-set key obj_json sub (R.view w) apart fits)
                  (ap (λ r. r.0) (sym all) ∙ h) in
              inr (
                ended,
                free,
                ap (λ r. R.view r.1) all
                    ∙ v
                    ∙ ap (run (sadd sub key ∷ publish sub msg_json ∷ [])) stored,
              )
          | inr refused ↦
              let all =
                e ∙ ap (λ x. after_set R key sub msg_json x (R.set_nx key obj_json w).1) refused in
              inl (
                ok_inj t (codes "NO") (sym h ∙ ap (λ r. r.0) all),
                ap (λ r. R.view r.1) all
                    ∙ ops.set_nx_nil key obj_json w (replied ∙ ap (λ x. ok x) refused),
              )
        ]
