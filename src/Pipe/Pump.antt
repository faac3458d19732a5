-- ===== src/Pipe/Pump.antt =====
-- What the pump sends to Redis, and in which order.
use synk.Base.{
  Text, codes, Option-cases, none, some, List, [], ◌∷◌, ◌++◌, length, length-append, ◌≤◌, ◌≡◌, ◌⊎◌,
  inl, inr, refl, sym, ap, subst, ◌∙◌, append_assoc, append-nil, arith,
}
use mathlib.Core.Option.{some-injective}
use synk.Result.{Error}
use synk.MainLoop.Order.{none-some}
use synk.Pipe.{
  ToRedis, Pumping, pumping, crashed, Pipe, Event, publishes, pumps, mutates, to_redis_length,
  publish, after_do, pump_next, step, run,
}

-- The commands of the calls of Publish in a schedule
unfoldable pub published : List Event → List ToRedis
published [] = []
published (publishes args ∷ events) =
    record { command_name = codes "PUBLISH"; args = args } ∷ published events
published (event ∷ events) = published events

module _ {W : Type 0} (conn_do : ToRedis → W → Error × W) (sent : W → List ToRedis) where
  abbrev pub backlog : Pipe W → List ToRedis
  backlog s = sent s.world ++ s.to_redis

  -- A step after which the pump still runs.
  record Pumps (s t : Pipe W) (out : List ToRedis) : Type 0 where
    before : s.pump ≡ pumping
    backlog : backlog t ≡ backlog s ++ out
    room : length s.to_redis ≤ to_redis_length → length t.to_redis ≤ to_redis_length

  published-Pumps :
      (s t : Pipe W) (args : List Text)
      → s.pump ≡ pumping
      → publish conn_do args s ≡ some t
      → Pumps s t (record { command_name = codes "PUBLISH"; args = args } ∷ [])
  unfolding publish
  published-Pumps s t args r h =
      let added : ToRedis = record { command_name = codes "PUBLISH"; args = args } in
      let same : t ≡ record s { to_redis = s.to_redis ++ added ∷ [] } = ground arith in
      record {
        before = r;
        backlog = ap backlog same ∙ sym (append_assoc (sent s.world) s.to_redis (added ∷ []));
        room = λ small. ground (arith, length-append s.to_redis (added ∷ []));
      }

  did :
      (r : Error × W) (s : Pipe W)
      → (after_do conn_do r s).pump ≡ pumping
      → (r.0 ≡ none) × (after_do conn_do r s ≡ record s { world = r.1 })
  unfolding after_do
  did (none, w) s goes = (refl, refl)
  did (some e, w) s goes = absurd (ground arith)

  module _
      (sent-do : (val : ToRedis) (w : W)
        → (conn_do val w).0 ≡ none
        → sent (conn_do val w).1 ≡ sent w ++ val ∷ []) where
    pumped-Pumps :
        (s t : Pipe W) (queue : List ToRedis)
        → s.pump ≡ pumping
        → s.to_redis ≡ queue
        → pump_next conn_do queue s ≡ some t
        → t.pump ≡ pumping
        → Pumps s t []
    unfolding pump_next
    pumped-Pumps s t [] r e h goes = absurd (ground arith)
    pumped-Pumps s t (val ∷ rest) r e h goes =
        let popped : Pipe W = record s { to_redis = rest } in
        let same = some-injective _ _ h in
        let (no_error, done) = did (conn_do val s.world) popped (ap (λ x. x.pump) same ∙ goes) in
        record {
          before = r;
          backlog =
              ap backlog (sym same ∙ done)
              ∙ ap (λ l. l ++ rest) (sent-do val s.world no_error)
              ∙ append_assoc (sent s.world) (val ∷ []) rest
              ∙ ap (λ l. sent s.world ++ l) (sym e)
              ∙ sym (append-nil (backlog s));
          room = λ small. ground (arith, ap (λ x. x.to_redis) (sym same ∙ done));
        }

    step-Pumps :
        (event : Event) (s t : Pipe W) (now : Pumping)
        → s.pump ≡ now
        → step conn_do event s now ≡ some t
        → t.pump ≡ pumping
        → Pumps s t (published (event ∷ []))
    unfolding step published
    step-Pumps event s t (crashed e) r h goes = absurd (none-some h)
    step-Pumps (publishes args) s t pumping r h goes = published-Pumps s t args r h
    step-Pumps pumps s t pumping r h goes = pumped-Pumps s t s.to_redis r refl h goes
    step-Pumps mutates s t pumping r h goes = absurd (ground arith)

    published-cons :
        (event : Event) (events : List Event)
        → published (event ∷ []) ++ published events ≡ published (event ∷ events)
    unfolding published
    published-cons (publishes args) events = refl
    published-cons pumps events = refl
    published-cons mutates events = refl

    run-crashed :
        (events : List Event) (s u : Pipe W) (e : Text)
        → s.pump ≡ crashed e
        → run conn_do events s ≡ some u
        → u.pump ≡ crashed e
    unfolding run step
    run-crashed [] s u e r h = ground arith
    run-crashed (event ∷ events) s u e r h = absurd (ground arith)

    pumping-cases : (p : Pumping) → (p ≡ pumping) ⊎ ((e : Text) × (p ≡ crashed e))
    pumping-cases pumping = inl refl
    pumping-cases (crashed e) = inr (e, refl)

    crashed-ne-pumping : (e : Text) → crashed e ≡ pumping → ⊥
    crashed-ne-pumping e h = ground arith

    -- While the pump of a Pipe runs, what Redis has been sent and what waits is what had been
    -- sent and waited, and then all that has been published since, in order, and at most 1000
    -- commands wait; where Redis has been sent a command if Do has no error.
    pub run-backlog :
        (events : List Event) (s u : Pipe W)
        → length s.to_redis ≤ to_redis_length
        → run conn_do events s ≡ some u
        → u.pump ≡ pumping
        → (backlog u ≡ backlog s ++ published events) × (length u.to_redis ≤ to_redis_length)
    unfolding run published
    run-backlog [] s u small h goes =
        let same = some-injective _ _ h in
        (
          sym (ap backlog same) ∙ sym (append-nil (backlog s)),
          subst (λ x. length x.to_redis ≤ to_redis_length) same small,
        )
    run-backlog (event ∷ events) s u small h goes =
        elim (Option-cases (step conn_do event s s.pump)) [
          | inl stuck ↦ absurd (
              none-some
                (sym (ap (λ o. elim o [ none ↦ none | some x ↦ run conn_do events x ]) stuck) ∙ h))
          | inr (t, first) ↦
              let rest =
                sym (ap (λ o. elim o [ none ↦ none | some x ↦ run conn_do events x ]) first) ∙ h in
              elim (pumping-cases t.pump) [
                | inr (e, dead) ↦
                    absurd (crashed-ne-pumping e (sym (run-crashed events t u e dead rest) ∙ goes))
                | inl alive ↦
                    let one = step-Pumps event s t s.pump refl first alive in
                    let more = run-backlog events t u (one.room small) rest goes in
                    (
                      more.0
                          ∙ ap (λ l. l ++ published events) one.backlog
                          ∙ append_assoc (backlog s) (published (event ∷ [])) (published events)
                          ∙ ap (λ l. backlog s ++ l) (published-cons event events),
                      more.1,
                    )
              ]
        ]
