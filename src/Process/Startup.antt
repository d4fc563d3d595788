-- ===== src/Process/Startup.antt =====
-- src/index.ts, start, and what GET /health of src/app.ts says in a process that serves.
use event_driven_kafka.Base.{
  ℕ, Option, none, some, ◌⊎◌, inl, inr, String, Bool, true, false, ◌||◌, List, [], ◌∷◌, map, ◌≡◌,
  refl, ◌≢◌, sym, ap, ◌∙◌, All,
}
use event_driven_kafka.Base.Distinct.{Distinct}
use event_driven_kafka.World.{Error, World, Consumer, healthy, down}
use event_driven_kafka.Exec.{
  Result, ok, err, Exec, pure, ◌>>=◌, ◌>>◌, continue, query, handled, try_catch,
}
use event_driven_kafka.Exec.Worlds.{calm, Condition, Upholds, Upholds-bind, Upholds-try_catch}
use mathlib.Core.Logic.{if_pos, if_neg}
use event_driven_kafka.BaseConsumer.{update}
use event_driven_kafka.BaseConsumer.Lifecycle
use event_driven_kafka.BaseConsumer.Lifecycle.{kafka_call, subscribe_all, set_healthy, set_down}
use event_driven_kafka.Http.Status.{
  ping, Health, is_down, is_degraded, has_down, has_degraded, report_health, get_health,
}
use event_driven_kafka.Http.{Response}
use event_driven_kafka.Process.{
  start_process, start_after, exit_code, connect_services, all_groups, consumers_status, serve_as,
  both, start_consumers,
}
use event_driven_kafka.Config.{Topic}
use event_driven_kafka.System.{Group, Group-discrete, topics_of, System, replaced, given_to}

abbrev Anything {ℓ} : {A : Type ℓ} → Result A → Condition
Anything r w = Unit {0}

whatever {ℓ} : {A : Type ℓ} (m : Exec A) → Upholds (λ w. Unit {0}) m Anything
whatever m = record { at = λ w p. tt }

abbrev Started : Result (Unit {0}) → Condition
Started (ok u) w = w.consumer.status ≡ healthy
Started (err e) w = w.consumer.status ≡ down

abbrev Tried : Result (Unit {0}) → Condition
Tried (ok u) w = w.consumer.status ≡ healthy
Tried (err e) w = Unit

before_Tried :
    (m n : Exec (Unit {0}))
    → Upholds (λ w. Unit {0}) n Tried
    → Upholds (λ w. Unit {0}) (m >> n) Tried
before_Tried m n h = Upholds-bind m (λ u. n) Anything (whatever m) (λ u. h) (λ e w p. tt)

start-Started : (topics : List String) → Upholds (λ w. Unit {0}) (Lifecycle.start topics) Started
unfolding Lifecycle.start update
start-Started topics =
    Upholds-try_catch _ _ Tried
      (before_Tried _ _
        (before_Tried _ _ (before_Tried _ _ (before_Tried _ _ (record { at = λ w p. refl })))))
      (λ u w p. p)
      (λ e.
        Upholds-bind _ _ (λ r w. (w.consumer.status ≡ down) × IsOk r)
          (record { at = λ w p. (refl, tt) }) (λ u. record { at = λ w p. p.0 })
          (λ x w p. absurd p.1))
  where
    IsOk : Result (Unit {0}) → Type 0
    IsOk (ok u) = Unit
    IsOk (err e) = ⊥

abbrev failed : Result (Unit {0}) → Bool
failed (ok u) = false
failed (err e) = true

abbrev StatusBy : Result (Unit {0}) → World → Type 0
StatusBy r w = (is_down w.consumer.status ≡ failed r) × (is_degraded w.consumer.status ≡ false)

Started-StatusBy : (r : Result (Unit {0})) (w : World) → Started r (calm w) → StatusBy r w
Started-StatusBy (ok u) w h = (ap is_down h, ap is_degraded h)
Started-StatusBy (err e) w h = (ap is_down h, ap is_degraded h)

failed-both : (r q : Result (Unit {0})) → failed (both r q) ≡ failed r || failed q
failed-both (ok u) q = refl
failed-both (err e) q = refl

replaced_self : (g : Group) (c : Consumer) (cs : Group → Consumer) → replaced g c cs g ≡ c
replaced_self g c cs = if_pos (Group-discrete g g) refl c (cs g)

replaced_other :
    (g h : Group) (c : Consumer) (cs : Group → Consumer) → h ≢ g → replaced g c cs h ≡ cs h
replaced_other g h c cs n = if_neg (Group-discrete h g) n c (cs h)

both_or : {a b c d : Bool} → a ≡ c → b ≡ d → (a || b) ≡ (c || d)
both_or p q = cc

-- The consumers that are not started are left alone.
start_others :
    (gs : List Group) (s : System) (g : Group)
    → All (λ h. h ≢ g) gs
    → (start_consumers gs s).1.consumers g ≡ s.consumers g
unfolding start_consumers
start_others [] s g n = refl
start_others (h ∷ gs) s g n =
    start_others gs _ g n.1 ∙ replaced_other h g _ s.consumers (λ p. n.0 (sym p))

started_all :
    (gs : List Group) (s : System)
    → Distinct gs
    → let r = start_consumers gs s in
      (has_down (map r.1.consumers gs) ≡ failed r.0) × (has_degraded (map r.1.consumers gs) ≡ false)
unfolding start_consumers
started_all [] s d = (refl, refl)
started_all (g ∷ gs) s d =
    let rest = started_all gs (serve_as g (Lifecycle.start (topics_of g)) s).1 d.1 in
    (
      both_or (ap (λ c. is_down c.status) same ∙ status.0) rest.0 ∙ sym (failed-both _ _),
      both_or (ap (λ c. is_degraded c.status) same ∙ status.1) rest.1,
    )
  where
    begun : Result (Unit {0}) × World
    begun = Lifecycle.start (topics_of g) (given_to g s)

    next : System
    next = record { world = begun.1; consumers = replaced g begun.1.consumer s.consumers }

    status : StatusBy begun.0 begun.1
    status = Started-StatusBy begun.0 begun.1 ((start-Started (topics_of g)).at (given_to g s) tt)

    same : (start_consumers gs next).1.consumers g ≡ begun.1.consumer
    same = start_others gs next g d.0 ∙ replaced_self g begun.1.consumer s.consumers

all_groups-Distinct : Distinct all_groups
all_groups-Distinct = (
  (λ p. cc, (λ p. cc, (λ p. cc, (λ p. cc, (λ p. cc, (λ p. cc, tt)))))),
  (
    (λ p. cc, (λ p. cc, (λ p. cc, (λ p. cc, (λ p. cc, tt))))),
    (
      (λ p. cc, (λ p. cc, (λ p. cc, (λ p. cc, tt)))),
      ((λ p. cc, (λ p. cc, (λ p. cc, tt))), ((λ p. cc, (λ p. cc, tt)), ((λ p. cc, tt), (tt, tt)))),
    ),
  ),
)

-- What GET /health says of consumers that are all up, by what the ping returned.
abbrev pub IsReported : Result Bool → Response Health → Type 0
IsReported (ok true) res = (res.status ≡ 200) × (res.body.status ≡ "ok")
IsReported _ res = (res.status ≡ 503) × (res.body.status ≡ "down")

abbrev Answered : Result Bool → Type 0
Answered (ok b) = Unit
Answered (err e) = ⊥

ping-Answered : (w : World) → Answered (ping w).0
unfolding ping try_catch
ping-Answered w = caught (query {A = Unit {0}} (λ db. tt) >>= λ row. pure true) w
  where
    settled : (r : Result Bool) (v : World) → Answered (handled (λ e. pure false) (r, v)).0
    settled (ok b) v = tt
    settled (err e) v = tt

    caught : (m : Exec Bool) (w : World) → Answered (handled (λ e. pure false) (m w)).0
    caught m w = settled (m w).0 (m w).1

reported :
    (consumers : List Consumer) (p : Result Bool) (v : World)
    → has_down consumers ≡ false
    → has_degraded consumers ≡ false
    → Answered p
    → (res : Response Health) × ((continue p (report_health consumers) v).0 ≡ ok res)
      × IsReported p res
unfolding ◌>>=◌
reported consumers (ok true) v out fit a = (_, refl, (rw out refl, rw out (rw fit refl)))
reported consumers (ok false) v out fit a = (_, refl, (refl, refl))
reported consumers (err e) v out fit a = absurd a

module _ (list_topics : Exec (List String)) (create : List Topic → Exec (Unit {0}))
    (create_tables : Exec (Unit {0})) where
  abbrev connected : System → Result (Unit {0}) × World
  connected s = connect_services list_topics create create_tables s.world

  -- The process has ended: the database, the topics, the replay service or the relay failed to start, or
  -- a consumer is down.
  abbrev pub HasExited : System → Option ℕ × System → Type 0
  HasExited s r =
      (r.0 ≡ some 1)
      × (((x : Error) × ((connected s).0 ≡ err x)) ⊎ (has_down (consumers_status r.1) ≡ true))

  -- The process serves, and this is what GET /health answers in the world `w`.
  abbrev pub Serves : World → Option ℕ × System → Type 0
  Serves w r =
      (r.0 ≡ none)
      × (has_down (consumers_status r.1) ≡ false)
      × (res : Response Health) × ((get_health (consumers_status r.1) w).0 ≡ ok res)
      × IsReported (ping w).0 res

  started :
      (s : System) (w : World) (v : World)
      → HasExited s (start_after list_topics create create_tables (ok tt) (record s { world = v }))
        ⊎ Serves w (start_after list_topics create create_tables (ok tt) (record s { world = v }))
  unfolding get_health consumers_status ◌>>=◌
  started s w v =
      let begun : Result (Unit {0}) × System =
        start_consumers all_groups (record s { world = v }) in
      go begun.0 begun.1 (started_all all_groups (record s { world = v }) all_groups-Distinct)
    where
      go :
          (r : Result (Unit {0})) (q : System)
          → (has_down (map q.consumers all_groups) ≡ failed r)
            × (has_degraded (map q.consumers all_groups) ≡ false)
          → HasExited s (exit_code list_topics create create_tables r, q)
            ⊎ Serves w (exit_code list_topics create create_tables r, q)
      go (err x) q h = inl (refl, inr h.0)
      go (ok u) q h =
          let (res, e, a) =
            reported (map q.consumers all_groups) (ping w).0 (ping w).1 h.0 h.1 (ping-Answered w) in
          inr (refl, h.0, res, e, a)

  -- The process starts, whatever calls fail. Either it exits with code 1, and the database, the topics, the
  -- replay service or the relay failed to start or a consumer is down; or it serves, no consumer is
  -- down, and GET /health always answers: 200 with the status "ok" if the ping of the database
  -- succeeds, else 503 with the status "down".
  pub start_then_health :
      (s : System) (w : World)
      → HasExited s (start_process list_topics create create_tables s)
        ⊎ Serves w (start_process list_topics create create_tables s)
  unfolding start_process
  start_then_health s w = go (connected s).0 (connected s).1 refl
    where
      go :
          (r : Result (Unit {0})) (v : World)
          → (connected s).0 ≡ r
          → HasExited s (start_after list_topics create create_tables r (record s { world = v }))
            ⊎ Serves w (start_after list_topics create create_tables r (record s { world = v }))
      go (err x) v p = inl (refl, inl (x, p))
      go (ok u) v p = started s w v
