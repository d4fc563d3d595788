-- ===== src/Database/Leases/Run.antt =====
-- The workers' statements on a table of leased rows, run in any order, and what every row satisfies
-- then.
use event_driven_kafka.Base.{
  ℕ, ◌+◌, ◌*◌, ◌≤◌, ◌<◌, String, true, List, [], ◌∷◌, Option, none, some, ◌≡◌, refl, ◌≢◌, arith,
  All,
}
use event_driven_kafka.Base.Distinct.{Distinct, All-both}
use event_driven_kafka.Base.Table.{All-update, All-update_where, All-upsert}
use event_driven_kafka.Database.Leases.{
  pending, processing, published, failed, Leased, new_row, same_id, keep_old, insert_pending,
  is_claimable, claimed_ids, in_ids, lease, claim, is_held, set_published, set_failed,
  mark_published, mark_failed,
}
use event_driven_kafka.Database.Leases.Rows.{
  ids, ids-update_where, Distinct-upsert, claimed_only_claimable,
}

-- What every row satisfies.
pub record IsSound {ℓ} {C : Type ℓ} (r : Leased C) : Type 0 where
  pub attempts_bounded : r.attempts ≤ 10
  pub pending_retriable : r.status ≡ pending → r.attempts < 10
  pub failed_exhausted : r.status ≡ failed → r.attempts ≡ 10
  pub processing_leased :
      r.status ≡ processing
      → (w : String) × (t : ℕ) × (r.lease_owner ≡ some w) × (r.lease_expires_at ≡ some t)
  pub settled_unowned : r.status ≢ processing → (r.lease_owner ≡ none) × (r.lease_expires_at ≡ none)
  pub published_stamped : r.status ≡ published → (t : ℕ) × (r.published_at ≡ some t)

-- One statement of some worker or of the service that inserts events, or time that passes.
pub data Statement {ℓ} (C : Type ℓ) : Type ℓ where
  inserts : String → C → Statement C
  claims : ℕ → String → ℕ → Statement C
  publishes : String → Option String → Statement C
  fails : String → String → Option String → Statement C
  elapses : ℕ → Statement C

pub record LeasedTable {ℓ} (C : Type ℓ) : Type ℓ where
  pub rows : List (Leased C)
  pub clock : ℕ

module _ {ℓ} {C : Type ℓ} where
  unfoldable pub execute : Statement C → LeasedTable C → LeasedTable C
  execute (inserts id c) t = record t { rows = insert_pending id c t.clock t.rows }
  execute (claims limit worker seconds) t = record t {
    rows = (claim limit worker seconds t.clock t.rows).1;
  }
  execute (publishes id worker) t = record t { rows = (mark_published id worker t.clock t.rows).1 }
  execute (fails id error worker) t = record t { rows = (mark_failed id error worker t.rows).1 }
  execute (elapses ms) t = record t { clock = t.clock + ms }

  unfoldable pub run : List (Statement C) → LeasedTable C → LeasedTable C
  unfolding execute
  run [] t = t
  run (s ∷ ss) t = run ss (execute s t)

  -- The table's invariant.
  pub record IsSoundTable (t : LeasedTable C) : Type 0 where
    pub keyed : Distinct (ids t.rows)
    pub sound : All IsSound t.rows

  lease-IsSound :
      (worker : String) (seconds now : ℕ) (r : Leased C)
      → is_claimable now r ≡ true
      → IsSound r
      → IsSound (lease worker seconds now r)
  lease-IsSound worker seconds now r c s = record {
    attempts_bounded = ground arith;
    pending_retriable = λ e. cc;
    failed_exhausted = λ e. cc;
    processing_leased = λ e. (worker, now + seconds * 1000, refl, refl);
    settled_unowned = λ n. absurd (n refl);
    published_stamped = λ e. cc;
  }

  set_published-IsSound : (now : ℕ) (r : Leased C) → IsSound r → IsSound (set_published now r)
  set_published-IsSound now r s = record {
    attempts_bounded = s.attempts_bounded;
    pending_retriable = λ e. cc;
    failed_exhausted = λ e. cc;
    processing_leased = λ e. cc;
    settled_unowned = λ n. (refl, refl);
    published_stamped = λ e. (now, refl);
  }

  set_failed-IsSound : (error : String) (r : Leased C) → IsSound r → IsSound (set_failed error r)
  set_failed-IsSound error r s = record {
    attempts_bounded = s.attempts_bounded;
    pending_retriable = ground (arith, s.attempts_bounded);
    failed_exhausted = ground (arith, s.attempts_bounded);
    processing_leased = ground arith;
    settled_unowned = λ n. (refl, refl);
    published_stamped = ground arith;
  }

  claim-IsSound :
      (limit : ℕ) (worker : String) (seconds now : ℕ) (rows : List (Leased C))
      → Distinct (ids rows)
      → All IsSound rows
      → All IsSound (claim limit worker seconds now rows).1
  unfolding claim
  claim-IsSound limit worker seconds now rows d h =
      All-update (λ r. IsSound r × (in_ids chosen r ≡ true → is_claimable now r ≡ true)) IsSound
        (in_ids chosen) (lease worker seconds now)
        (λ r e k. lease-IsSound worker seconds now r (k.1 e) k.0) (λ r e k. k.0) rows
        (All-both _ _ rows h (claimed_only_claimable limit now rows d))
    where
      chosen : List String
      chosen = claimed_ids limit now rows

  claim-ids :
      (limit : ℕ) (worker : String) (seconds now : ℕ) (rows : List (Leased C))
      → ids (claim limit worker seconds now rows).1 ≡ ids rows
  unfolding claim
  claim-ids limit worker seconds now rows =
      ids-update_where (in_ids (claimed_ids limit now rows)) (lease worker seconds now) (λ r. refl)
        rows

  -- Every statement keeps the table sound.
  pub execute-IsSoundTable :
      (s : Statement C) (t : LeasedTable C) → IsSoundTable t → IsSoundTable (execute s t)
  unfolding execute insert_pending mark_published mark_failed
  execute-IsSoundTable (inserts id c) t h = record {
    keyed = Distinct-upsert (new_row id c t.clock) t.rows h.keyed;
    sound =
        All-upsert IsSound same_id keep_old (new_row id c t.clock) (λ x e s. s) (ground arith)
          t.rows h.sound;
  }
  execute-IsSoundTable (claims limit worker seconds) t h = record {
    keyed = rw (claim-ids limit worker seconds t.clock t.rows) h.keyed;
    sound = claim-IsSound limit worker seconds t.clock t.rows h.keyed h.sound;
  }
  execute-IsSoundTable (publishes id worker) t h = record {
    keyed =
        rw (ids-update_where (is_held id worker) (set_published t.clock) (λ r. refl) t.rows)
          h.keyed;
    sound =
        All-update_where IsSound (is_held id worker) (set_published t.clock)
          (λ r e s. set_published-IsSound t.clock r s) t.rows h.sound;
  }
  execute-IsSoundTable (fails id error worker) t h = record {
    keyed = rw (ids-update_where (is_held id worker) (set_failed error) (λ r. refl) t.rows) h.keyed;
    sound =
        All-update_where IsSound (is_held id worker) (set_failed error)
          (λ r e s. set_failed-IsSound error r s) t.rows h.sound;
  }
  execute-IsSoundTable (elapses ms) t h = record { keyed = h.keyed; sound = h.sound }

  -- From a sound table, any statements of any workers in any order lead to a sound table: ids stay
  -- distinct, attempts never pass 10, a pending row has attempts left, a failed row has used up all
  -- 10, a row that is being processed has an owner and an expiry and no other row has them, and a
  -- published row has its time of publication.
  pub run-IsSoundTable :
      (ss : List (Statement C)) (t : LeasedTable C) → IsSoundTable t → IsSoundTable (run ss t)
  unfolding run
  run-IsSoundTable [] t h = h
  run-IsSoundTable (s ∷ ss) t h = run-IsSoundTable ss (execute s t) (execute-IsSoundTable s t h)
