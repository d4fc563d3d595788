-- ===== src/Tests/LeaseRuns.antt =====
-- Leased rows of the outbox under concrete statements of several workers.
use event_driven_kafka.Base.{ℕ, List, [], ◌∷◌, some, ◌≡◌, refl, true, ◌≤◌, arith, All}
use event_driven_kafka.Database.Leases.{mark_published}
use event_driven_kafka.Database.Leases.Run.{
  IsSound, IsSoundTable, Statement, inserts, claims, publishes, fails, elapses, LeasedTable,
  execute, run, run-IsSoundTable,
}
use event_driven_kafka.Database.Leases.Fencing.{
  Holds, IsForeign, lease_protects, last_attempt_stuck,
}
use event_driven_kafka.Database.Outbox.{OutboxEvent}
use event_driven_kafka.Tests.Fixtures.{apart, held_row, outbox_event}

abbrev empty_table : LeasedTable OutboxEvent
empty_table = record { rows = []; clock = 1000 }

abbrev two_workers : List (Statement OutboxEvent)
two_workers =
    inserts "out_1" outbox_event
    ∷ claims 10 "w1" 30
    ∷ elapses 31000
    ∷ claims 10 "w2" 30
    ∷ publishes "out_1" (some "w1")
    ∷ fails "out_1" "no broker" (some "w2")
    ∷ []

run-IsSoundTable_example : IsSoundTable (run two_workers empty_table)
run-IsSoundTable_example =
    run-IsSoundTable two_workers empty_table (record { keyed = tt; sound = tt })

abbrev held_table : ℕ → LeasedTable OutboxEvent
held_table attempts = record { rows = held_row attempts ∷ []; clock = 12000 }

held_row-IsSound : (attempts : ℕ) → attempts ≤ 10 → IsSound (held_row attempts)
held_row-IsSound attempts bound = record {
  attempts_bounded = bound;
  pending_retriable = λ e. cc;
  failed_exhausted = λ e. cc;
  processing_leased = λ e. ("w1", 40000, refl, refl);
  settled_unowned = λ n. absurd (n refl);
  published_stamped = λ e. cc;
}

held_table-IsSoundTable : (attempts : ℕ) → attempts ≤ 10 → IsSoundTable (held_table attempts)
held_table-IsSoundTable attempts bound = record {
  keyed = (tt, tt);
  sound = (held_row-IsSound attempts bound, tt);
}

held_table-Holds : (attempts : ℕ) → Holds (held_row attempts) (held_table attempts).rows
held_table-Holds attempts = record { only = (λ e. refl, tt); present = refl }

abbrev others : List (Statement OutboxEvent)
others = claims 10 "w2" 30 ∷ elapses 20000 ∷ publishes "out_1" (some "w2") ∷ []

others-IsForeign : All (IsForeign "w1") others
others-IsForeign = (tt, (tt, ((apart "w2" "" refl, apart "w1" "w2" refl), tt)))

in_time : (run others (held_table 1)).clock ≤ 40000
unfolding run execute
in_time = omega arith

lease_protects_example :
    Holds (held_row 1) (run others (held_table 1)).rows
    × ((mark_published "out_1" (some "w1") 33000 (run others (held_table 1)).rows).0 ≡ true)
lease_protects_example =
    lease_protects "w1" 40000 33000 (held_row 1) others (held_table 1) refl refl refl
      (held_table-IsSoundTable 1 (omega arith)) (held_table-Holds 1) others-IsForeign in_time

last_attempt_stuck_example : Holds (held_row 10) (run others (held_table 10)).rows
last_attempt_stuck_example =
    last_attempt_stuck "w1" (held_row 10) others (held_table 10) refl refl (omega arith)
      (held_table-IsSoundTable 10 (omega arith)) (held_table-Holds 10) others-IsForeign
