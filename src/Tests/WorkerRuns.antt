-- ===== src/Tests/WorkerRuns.antt =====
-- The workers on concrete requests.
use event_driven_kafka.Base.{true, false, ◌⊎◌, [], ◌≡◌, refl, true, false}
use event_driven_kafka.Json.{null, num, str, arr, obj, nil, cons, Items, end, field}
use event_driven_kafka.Contracts.{
  EventEnvelope, payment_requested, payment_rejected, inventory_reservation_requested,
  inventory_reservation_failed, inventory_reserved, shipment_requested, shipment_created,
}
use event_driven_kafka.Database.{empty_db}
use event_driven_kafka.World.{World, plain_world}
use event_driven_kafka.Exec.{ok, err}
use event_driven_kafka.Workers.{
  payment_process, inventory_process, shipping_process, has_out_of_stock, no_item,
}
use event_driven_kafka.Workers.Replies.{
  AnyShort, NoneShort, IsAnswered, payment_process-IsAnswered, inventory_process-IsAnswered,
  shipping_process-IsAnswered,
}
use event_driven_kafka.Tests.Fixtures.{event_of}

abbrev plain : World
plain = plain_world "worker" []

abbrev faulty : World
faulty = record plain { chaos = record plain.chaos { payment_failure = true } }

payment_process-IsAnswered_example :
    IsAnswered
      (event_of payment_requested)
      payment_rejected
      empty_db
      []
      (payment_process (event_of payment_requested) faulty)
payment_process-IsAnswered_example =
    payment_process-IsAnswered (event_of payment_requested) faulty refl refl

abbrev many : Items
many = cons (obj (field "sku" (str "SKU_1") (field "quantity" (num 501) end))) nil

abbrev large_request : EventEnvelope
large_request = record (event_of inventory_reservation_requested) {
  payload = field "items" (arr many) end;
}

inventory_process-IsAnswered_example :
    (((plain.chaos.inventory_failure ≡ true) ⊎ AnyShort plain.env many)
      × IsAnswered large_request inventory_reservation_failed empty_db []
          (inventory_process large_request plain))
    ⊎ (((plain.chaos.inventory_failure ≡ false) × NoneShort plain.env many)
        × IsAnswered large_request inventory_reserved empty_db []
            (inventory_process large_request plain))
inventory_process-IsAnswered_example =
    inventory_process-IsAnswered large_request many plain refl refl refl ((λ p. cc), (λ p. cc), tt)

large_request_fails : has_out_of_stock plain.env many ≡ ok true
unfolding has_out_of_stock
large_request_fails = refl

null_item_throws : has_out_of_stock plain.env (cons null nil) ≡ err (no_item "null")
unfolding has_out_of_stock
null_item_throws = refl

shipping_process-IsAnswered_example :
    IsAnswered
      (event_of shipment_requested)
      shipment_created
      empty_db
      []
      (shipping_process (event_of shipment_requested) plain)
shipping_process-IsAnswered_example =
    shipping_process-IsAnswered (event_of shipment_requested) plain refl refl
