-- ===== src/Database/Dlq/Listing.antt =====
-- src/services/database.ts, listDLQMessages: how many rows it lists.
use event_driven_kafka.Base.{
  ℕ, zero, suc, min, List, [], ◌∷◌, ◌≡◌, refl, ap, ◌∙◌, arith, length, take, where_rows,
}
use event_driven_kafka.Database.Dlq.{
  DlqStatus, DlqRow, same_status, insert_latest_first, latest_first, list_dlq_messages,
}

length-insert :
    (r : DlqRow) (rows : List DlqRow) → length (insert_latest_first r rows) ≡ suc (length rows)
unfolding insert_latest_first
length-insert r [] = refl
length-insert r (s ∷ rows) = ground (arith, length-insert r rows)

length-latest_first : (rows : List DlqRow) → length (latest_first rows) ≡ length rows
unfolding latest_first
length-latest_first [] = refl
length-latest_first (r ∷ rows) =
    length-insert r (latest_first rows) ∙ ap (λ (n : ℕ). suc n) (length-latest_first rows)

length-take : (n : ℕ) (rows : List DlqRow) → length (take n rows) ≡ min n (length rows)
length-take zero rows = omega arith
length-take (suc n) [] = omega arith
length-take (suc n) (r ∷ rows) = omega (arith, length-take n rows)

-- The rows with the status, but for those past the limit.
pub length-list_dlq_messages :
    (n : ℕ) (status : DlqStatus) (rows : List DlqRow)
    → length (list_dlq_messages n status rows)
      ≡ min n (length (where_rows (λ r. same_status r.status status) rows))
unfolding list_dlq_messages
length-list_dlq_messages n status rows =
    length-take n (latest_first (where_rows (λ r. same_status r.status status) rows))
    ∙ ap (λ k. min n k) (length-latest_first (where_rows (λ r. same_status r.status status) rows))
