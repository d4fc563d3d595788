-- ===== src/BaseConsumer/Retries.antt =====
-- src/consumers/base-consumer.ts, the retry loop of handleMessage: how it ends.
use event_driven_kafka.Base.{ℕ, suc, ◌+◌, Option, some, ◌≡◌}
use event_driven_kafka.Contracts.{EventEnvelope}
use event_driven_kafka.World.{World, Error}
use event_driven_kafka.Exec.{Result, ok, err, Exec}
use event_driven_kafka.BaseConsumer.{Verdict, returned, exhausted, backoff_if_left, attempt_once}

module _ (process_event : EventEnvelope → Exec (Unit {0})) (e : EventEnvelope) where
  -- The attempts of a loop from one world to another: `Tries made left last w v w'` when `made` attempts
  -- were made, the last of them with the error `last`, and `left` are left in the world `w`.
  pub data Tries : ℕ → ℕ → Option Error → World → Verdict → World → Type 0 where
    over :
        {made : ℕ} {last : Option Error} {w : World} → Tries made 0 last w (exhausted made last) w
    succeeds :
        {made left : ℕ} {last : Option Error} {w w' : World}
        → attempt_once process_event e w ≡ (ok tt, w')
        → Tries made (suc left) last w returned w'
    fails :
        {made left : ℕ} {last : Option Error} {w u w' : World} {v : Verdict} (x : Error)
        → attempt_once process_event e w ≡ (err x, u)
        → Tries (made + 1) left (some x) (backoff_if_left (made + 1) left u).1 v w'
        → Tries made (suc left) last w v w'

  abbrev Ends : ℕ → ℕ → Option Error → World → Result Verdict × World → Type 0
  Ends made left last w r = (v : Verdict) × (r.0 ≡ ok v) × Tries made left last w v r.1
