-- ===== src/Database/Leases/Fencing.antt =====
-- src/services/database.ts: a row under a lease, and the statements of other workers.
use event_driven_kafka.Base.{
  ℕ, ◌≤◌, String, Bool, true, false, List, [], ◌∷◌, none, some, ◌≡◌, refl, ◌≢◌, inl, inr, sym, ap,
  ◌∙◌, arith, ◌==◌, eq_iff, eq_refl, any, Bool-cases, All,
}
use event_driven_kafka.Base.Distinct.{All-weaken, All-both, All-total}
use event_driven_kafka.Base.Table.{update_where, upsert, All-update, All-upsert}
use event_driven_kafka.Database.Leases.{
  processing, Leased, new_row, same_id, keep_old, insert_pending, is_claimable, claimed_ids, in_ids,
  lease, claim, is_held, set_published, set_failed, mark_published, mark_failed,
}
use event_driven_kafka.Database.Leases.Rows.{upsert-present, claimed_only_claimable}
use event_driven_kafka.Database.Leases.Run.{
  Statement, inserts, claims, publishes, fails, elapses, LeasedTable, IsSoundTable, execute, run,
  execute-IsSoundTable,
}

module _ {ℓ} {C : Type ℓ} where
  -- The row with this id is there, and is this one.
  pub record Holds (r : Leased C) (rows : List (Leased C)) : Type ℓ where
    pub only : All (λ s. s.id ≡ r.id → s ≡ r) rows
    pub present : any (λ s. s.id == r.id) rows ≡ true

  -- The statement's WHERE clause does not take the row.
  abbrev pub Spares : Leased C → ℕ → Statement C → Type 0
  Spares r now (inserts id c) = Unit
  Spares r now (claims limit worker seconds) = is_claimable now r ≡ false
  Spares r now (publishes id worker) = is_held id worker r ≡ false
  Spares r now (fails id error worker) = is_held id worker r ≡ false
  Spares r now (elapses ms) = Unit

  present-update_where :
      (i : String) (p : Leased C → Bool) (f : Leased C → Leased C)
      → ((r : Leased C) → (f r).id ≡ r.id)
      → (rows : List (Leased C))
      → any (λ s. s.id == i) (update_where p f rows) ≡ any (λ s. s.id == i) rows
  present-update_where i p f keep [] = refl
  present-update_where i p f keep (r ∷ rows) = elim (Bool-cases (p r)) [
    | inl e ↦ rw e (cc (keep r, present-update_where i p f keep rows))
    | inr e ↦ rw e (cc (present-update_where i p f keep rows))
  ]

  -- An update whose test fails on the row keeps it.
  update_where-Holds :
      (r : Leased C) (p : Leased C → Bool) (f : Leased C → Leased C) (rows : List (Leased C))
      → ((s : Leased C) → (f s).id ≡ s.id)
      → All (λ s. s ≡ r → p s ≡ false) rows
      → Holds r rows
      → Holds r (update_where p f rows)
  update_where-Holds r p f rows keep miss h = record {
    only =
        All-update (λ s. (s.id ≡ r.id → s ≡ r) × (s ≡ r → p s ≡ false)) (λ s. s.id ≡ r.id → s ≡ r) p
          f (λ s e k i. let same = k.0 (sym (keep s) ∙ i) in cc (k.1 same)) (λ s e k. k.0) rows
          (All-both _ _ rows h.only miss);
    present = present-update_where r.id p f keep rows ∙ h.present;
  }

  any-upsert :
      (p : Leased C → Bool) (new : Leased C) (rows : List (Leased C))
      → any p rows ≡ true
      → any p (upsert same_id keep_old new rows) ≡ true
  any-upsert p new [] h = cc
  any-upsert p new (r ∷ rows) h = elim (Bool-cases (r.id == new.id)) [
    | inl e ↦ rw e h
    | inr e ↦ rw e (ground (arith, any-upsert p new rows))
  ]

  insert-Holds :
      (r : Leased C) (id : String) (c : C) (now : ℕ) (rows : List (Leased C))
      → Holds r rows
      → Holds r (insert_pending id c now rows)
  unfolding insert_pending
  insert-Holds r id c now rows h = elim (Bool-cases (id == r.id)) [
    | inl e ↦
        rw
          (upsert-present (new_row id c now) rows
            (rw (ap (λ i. any (λ s. s.id == i) rows) ((eq_iff id r.id).0 e)) h.present))
          h
    | inr e ↦ record {
      only =
          All-upsert (λ s. s.id ≡ r.id → s ≡ r) same_id keep_old (new_row id c now) (λ x e h. h)
            (λ i. absurd (ground (arith, eq_iff id r.id))) rows h.only;
      present = any-upsert (λ s. s.id == r.id) (new_row id c now) rows h.present;
    }
  ]

  -- A statement that spares the row keeps it as it is.
  execute-Holds :
      (r : Leased C) (s : Statement C) (t : LeasedTable C)
      → IsSoundTable t
      → Spares r t.clock s
      → Holds r t.rows
      → Holds r (execute s t).rows
  unfolding execute claim mark_published mark_failed
  execute-Holds r (inserts id c) t v k h = insert-Holds r id c t.clock t.rows h
  execute-Holds r (claims limit worker seconds) t v k h =
      update_where-Holds r (in_ids chosen) (lease worker seconds t.clock) t.rows (λ s. refl)
        (All-weaken _ (λ s. s ≡ r → in_ids chosen s ≡ false)
          (λ s only same. elim (Bool-cases (in_ids chosen s)) [
            | inl e ↦ cc (only e, ap (is_claimable t.clock) same)
            | inr e ↦ e
          ])
          t.rows (claimed_only_claimable limit t.clock t.rows v.keyed))
        h
    where
      chosen : List String
      chosen = claimed_ids limit t.clock t.rows
  execute-Holds r (publishes id worker) t v k h =
      update_where-Holds r (is_held id worker) (set_published t.clock) t.rows (λ s. refl)
        (All-total (λ s. s ≡ r → is_held id worker s ≡ false) (λ s e. ap (is_held id worker) e ∙ k)
          t.rows)
        h
  execute-Holds r (fails id error worker) t v k h =
      update_where-Holds r (is_held id worker) (set_failed error) t.rows (λ s. refl)
        (All-total (λ s. s ≡ r → is_held id worker s ≡ false) (λ s e. ap (is_held id worker) e ∙ k)
          t.rows)
        h
  execute-Holds r (elapses ms) t v k h = h

  clock-execute_le : (s : Statement C) (t : LeasedTable C) → t.clock ≤ (execute s t).clock
  unfolding execute
  clock-execute_le (inserts id c) t = omega arith
  clock-execute_le (claims limit worker seconds) t = omega arith
  clock-execute_le (publishes id worker) t = omega arith
  clock-execute_le (fails id error worker) t = omega arith
  clock-execute_le (elapses ms) t = omega arith

  clock-run_le : (ss : List (Statement C)) (t : LeasedTable C) → t.clock ≤ (run ss t).clock
  unfolding run
  clock-run_le [] t = omega arith
  clock-run_le (s ∷ ss) t = omega (arith, clock-execute_le s t, clock-run_le ss (execute s t))

  -- The statement is no mark by this worker, nor a mark that names no worker.
  abbrev pub IsForeign : String → Statement C → Type 0
  IsForeign w (inserts id c) = Unit
  IsForeign w (claims limit worker seconds) = Unit
  IsForeign w (publishes id none) = ⊥
  IsForeign w (publishes id (some v)) = (v ≢ "") × (w ≢ v)
  IsForeign w (fails id error none) = ⊥
  IsForeign w (fails id error (some v)) = (v ≢ "") × (w ≢ v)
  IsForeign w (elapses ms) = Unit

  foreign-Spares :
      (w : String) (r : Leased C) (now : ℕ) (s : Statement C)
      → r.lease_owner ≡ some w
      → is_claimable now r ≡ false
      → IsForeign w s
      → Spares r now s
  foreign-Spares w r now (inserts id c) o n f = tt
  foreign-Spares w r now (claims limit worker seconds) o n f = n
  foreign-Spares w r now (publishes id none) o n f = absurd f
  foreign-Spares w r now (publishes id (some v)) o n f = ground (arith, eq_iff v "", eq_iff w v)
  foreign-Spares w r now (fails id error none) o n f = absurd f
  foreign-Spares w r now (fails id error (some v)) o n f = ground (arith, eq_iff v "", eq_iff w v)
  foreign-Spares w r now (elapses ms) o n f = tt

  is_held_owner :
      (w : String) (r : Leased C)
      → r.status ≡ processing
      → r.lease_owner ≡ some w
      → is_held r.id (some w) r ≡ true
  is_held_owner w r p o = ground (arith, eq_refl w, eq_refl r.id)

  -- A test that the row passes finds it.
  any-present :
      (test : Leased C → Bool) (r : Leased C)
      → test r ≡ true
      → (rows : List (Leased C)) → All (λ s. s.id ≡ r.id → s ≡ r) rows
      → any (λ s. s.id == r.id) rows ≡ true
      → any test rows ≡ true
  any-present test r passes [] only e = cc
  any-present test r passes (s ∷ rows) only e = elim (Bool-cases (s.id == r.id)) [
    | inl hit ↦ rw (ap test (only.0 ((eq_iff s.id r.id).0 hit)) ∙ passes)
    | inr miss ↦ ground (arith, any-present test r passes rows only.1)
  ]

  -- In a sound table, while the lease of worker `w` on a row in PROCESSING has not run out, whatever other workers do (they claim,
  -- they mark rows as published or failed, events are inserted, time passes), the row stays as it
  -- is, and the mark of `w` then succeeds.
  pub lease_protects :
      (w : String) (expiry now : ℕ) (r : Leased C) (ss : List (Statement C)) (t : LeasedTable C)
      → r.status ≡ processing
      → r.lease_owner ≡ some w
      → r.lease_expires_at ≡ some expiry
      → IsSoundTable t
      → Holds r t.rows
      → All (IsForeign w) ss
      → (run ss t).clock ≤ expiry
      → Holds r (run ss t).rows × ((mark_published r.id (some w) now (run ss t).rows).0 ≡ true)
  unfolding run mark_published
  lease_protects w expiry now r [] t p o e v h f c =
      (h, any-present (is_held r.id (some w)) r (is_held_owner w r p o) t.rows h.only h.present)
  lease_protects w expiry now r (s ∷ ss) t p o e v h f c =
      lease_protects w expiry now r ss (execute s t) p o e (execute-IsSoundTable s t v)
        (execute-Holds r s t v
          (foreign-Spares w r t.clock s o
            (ground (arith, clock-execute_le s t, clock-run_le ss (execute s t))) f.0)
          h)
        f.1 c

  -- In a sound table, a row in its tenth attempt whose worker is gone is never claimed again, published or failed:
  -- whatever other workers do, at whatever time, it stays `processing` as it is.
  pub last_attempt_stuck :
      (w : String) (r : Leased C) (ss : List (Statement C)) (t : LeasedTable C)
      → r.status ≡ processing
      → r.lease_owner ≡ some w
      → 10 ≤ r.attempts
      → IsSoundTable t
      → Holds r t.rows
      → All (IsForeign w) ss
      → Holds r (run ss t).rows
  unfolding run
  last_attempt_stuck w r [] t p o a v h f = h
  last_attempt_stuck w r (s ∷ ss) t p o a v h f =
      last_attempt_stuck w r ss (execute s t) p o a (execute-IsSoundTable s t v)
        (execute-Holds r s t v (foreign-Spares w r t.clock s o (ground arith) f.0) h) f.1
