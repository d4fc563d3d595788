-- ===== src/Replay/Success.antt =====
-- src/replay/event-replay-service.ts: a replay that nothing stops reports success.
use event_driven_kafka.Base.{ℕ, List, [], ◌∷◌, Option, some}
use event_driven_kafka.Contracts.{EventEnvelope}
use event_driven_kafka.Database.{Db}
use event_driven_kafka.World.{World, Env}
use event_driven_kafka.Exec.Changes.{and_then}
use event_driven_kafka.Projection.Effects.{projected}

-- The events one after another, as far as no statement violates a constraint.
unfoldable pub replayed : List EventEnvelope → Env → ℕ → Db → Option Db
replayed [] env now db = some db
replayed (e ∷ es) env now db = and_then (projected e env now db) (replayed es env now)
