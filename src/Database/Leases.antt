-- ===== src/Database/Leases.antt =====
-- src/services/database.ts, the tables outbox_events and dlq_outbox: rows that workers claim under a
-- lease. Both tables have the same columns for this, and the same statements; `C` holds the columns
-- that the statements leave alone. Times are milliseconds. Each statement is one step, so no row is
-- locked while another statement runs, and SKIP LOCKED skips none.
pub mod Rows
pub mod Run
pub mod Fencing
use event_driven_kafka.Base.{
  ℕ, ◌+◌, ◌*◌, String, Bool, true, false, ◌&&◌, ◌||◌, List, [], ◌∷◌, ◌++◌, map, Option, none, some,
  ◌==◌, leb, ltb, any, take, where_rows, if◌then◌else◌,
}
use event_driven_kafka.Base.Table.{update_where, upsert}

pub data OutboxStatus : Type 0 where
  pending processing published failed : OutboxStatus

pub record Leased {ℓ} (C : Type ℓ) : Type ℓ where
  pub id : String
  pub content : C
  pub status : OutboxStatus
  pub attempts : ℕ
  pub last_error : Option String
  pub lease_owner : Option String
  pub leased_at : Option ℕ
  pub lease_expires_at : Option ℕ
  pub created_at : ℕ
  pub published_at : Option ℕ

abbrev pub is_pending : OutboxStatus → Bool
is_pending pending = true
is_pending _ = false

abbrev pub is_processing : OutboxStatus → Bool
is_processing processing = true
is_processing _ = false

-- lease_expires_at IS NULL OR lease_expires_at < CURRENT_TIMESTAMP
abbrev pub has_expired : ℕ → Option ℕ → Bool
has_expired now none = true
has_expired now (some t) = ltb t now

-- $2::VARCHAR IS NULL OR lease_owner = $2, where `workerId || null` is $2.
abbrev pub owner_matches : Option String → Option String → Bool
owner_matches none owner = true
owner_matches (some w) none = w == ""
owner_matches (some w) (some o) = w == "" || o == w

module _ {ℓ} {C : Type ℓ} where
  abbrev pub new_row : String → C → ℕ → Leased C
  new_row id content now = record {
    id = id;
    content = content;
    status = pending;
    attempts = 0;
    last_error = none;
    lease_owner = none;
    leased_at = none;
    lease_expires_at = none;
    created_at = now;
    published_at = none;
  }

  abbrev pub same_id : Leased C → Leased C → Bool
  same_id r s = r.id == s.id

  abbrev pub keep_old : Leased C → Leased C → Leased C
  keep_old r new = r

  -- INSERT … 'PENDING', CURRENT_TIMESTAMP … ON CONFLICT (id) DO NOTHING
  unfoldable pub insert_pending : String → C → ℕ → List (Leased C) → List (Leased C)
  insert_pending id content now rows = upsert same_id keep_old (new_row id content now) rows

  -- The WHERE clause of the claim.
  abbrev pub is_claimable : ℕ → Leased C → Bool
  is_claimable now r =
      (is_pending r.status || is_processing r.status && has_expired now r.lease_expires_at)
      && ltb r.attempts 10

  insert_by_age : Leased C → List (Leased C) → List (Leased C)
  insert_by_age r [] = r ∷ []
  insert_by_age r (s ∷ rows) =
      if leb r.created_at s.created_at then r ∷ s ∷ rows else s ∷ insert_by_age r rows

  -- ORDER BY created_at ASC
  oldest_first : List (Leased C) → List (Leased C)
  unfolding insert_by_age
  oldest_first [] = []
  oldest_first (r ∷ rows) = insert_by_age r (oldest_first rows)

  -- The ids that the subquery of the claim selects.
  unfoldable pub claimed_ids : ℕ → ℕ → List (Leased C) → List String
  unfolding oldest_first
  claimed_ids limit now rows =
      map (λ r. r.id) (take limit (oldest_first (where_rows (is_claimable now) rows)))

  abbrev pub in_ids : List String → Leased C → Bool
  in_ids ids r = any (λ i. r.id == i) ids

  abbrev pub lease : String → ℕ → ℕ → Leased C → Leased C
  lease worker seconds now r = record r {
    status = processing;
    lease_owner = some worker;
    leased_at = some now;
    lease_expires_at = some (now + seconds * 1000);
    attempts = r.attempts + 1;
  }

  -- UPDATE … WHERE id IN (…) RETURNING *: the rows that were claimed, and the table.
  unfoldable pub claim : ℕ → String → ℕ → ℕ → List (Leased C) → List (Leased C) × List (Leased C)
  unfolding claimed_ids
  claim limit worker seconds now rows =
      let ids = claimed_ids limit now rows in
      let table = update_where (in_ids ids) (lease worker seconds now) rows in
      (where_rows (in_ids ids) table, table)

  -- The WHERE clause of both marks.
  abbrev pub is_held : String → Option String → Leased C → Bool
  is_held id worker r = r.id == id && is_processing r.status && owner_matches worker r.lease_owner

  abbrev pub set_published : ℕ → Leased C → Leased C
  set_published now r = record r {
    status = published;
    published_at = some now;
    lease_owner = none;
    lease_expires_at = none;
  }

  abbrev pub set_failed : String → Leased C → Leased C
  set_failed error r = record r {
    last_error = some error;
    lease_owner = none;
    lease_expires_at = none;
    status = if leb 10 r.attempts then failed else pending;
  }

  -- The mark returns whether it changed a row.
  unfoldable pub mark_published :
      String → Option String → ℕ → List (Leased C) → Bool × List (Leased C)
  mark_published id worker now rows =
      (any (is_held id worker) rows, update_where (is_held id worker) (set_published now) rows)

  unfoldable pub mark_failed :
      String → String → Option String → List (Leased C) → Bool × List (Leased C)
  mark_failed id error worker rows =
      (any (is_held id worker) rows, update_where (is_held id worker) (set_failed error) rows)
