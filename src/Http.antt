-- ===== src/Http.antt =====
-- src/app.ts: the routes that change something. A route gets the body that express.json has read, and ends
-- in a response; the service of replays is there, as where the program starts. Logging and the
-- counters of requests are left out.
pub mod Orders
pub mod Switches
pub mod Status
pub mod Queries
pub mod Dashboard
pub mod Validity
use event_driven_kafka.Base.{ℕ, String, Bool, true, false, ◌&&◌, none, if◌then◌else◌}
use event_driven_kafka.Json.{
  Json, undefined, null, num, arr, nil, Items, cons, prop, truthy, ◌or◌, text_of,
}
use event_driven_kafka.World.{Error}
use event_driven_kafka.Exec.{Exec, pure, ◌>>=◌, ◌>>◌, try_catch}
use event_driven_kafka.OrderService.{OrderOptions, NewOrder, create_order}
use event_driven_kafka.Replay.{ReplayResult, replay_dlq, replay_aggregate}

-- res.status(status).json(body), where a body that is no error is a value of its own.
pub record Response {ℓ} (A : Type ℓ) : Type ℓ where
  pub status : ℕ
  pub body : A

-- What a route answers: the value, or { error }.
pub data Answer {ℓ} (A : Type ℓ) : Type ℓ where
  value : A → Answer A
  failure : String → Answer A

abbrev pub fails_with {ℓ} : {A : Type ℓ} → ℕ → String → Response (Answer A)
fails_with status message = record { status = status; body = failure message }

pub data Check : Type 0 where
  valid crash : Check
  malformed : String → Check

abbrev pub is_number : Json → Bool
is_number (num n) = true
is_number _ = false

abbrev pub well_formed : Json → Check
well_formed i =
    if (truthy (prop "sku" i) && truthy (prop "name" i))
      && (is_number (prop "price" i) && is_number (prop "quantity" i))
    then valid
    else malformed "Invalid item format. Required: sku, name, price, quantity"

-- A read of a property of null or undefined throws.
abbrev pub check_item : Json → Check
check_item undefined = crash
check_item null = crash
check_item i = well_formed i

abbrev pub first_fault : Check → Check → Check
first_fault valid c = c
first_fault c d = c

unfoldable pub check_items : Items → Check
check_items nil = valid
check_items (cons i items) = first_fault (check_item i) (check_items items)

abbrev pub missing : Check
missing = malformed "Missing required fields: user_id, items (non-empty array)"

abbrev pub check_list : Json → Check
check_list (arr nil) = missing
check_list (arr (cons i items)) = check_items (cons i items)
check_list _ = missing

unfoldable pub check_order : Json → Check
check_order body = if truthy (prop "user_id" body) then check_list (prop "items" body) else missing

abbrev pub items_in : Json → Items
items_in (arr items) = items
items_in _ = nil

abbrev pub options_in : Json → OrderOptions
options_in body = record {
  correlation_id = none;
  causation_id = none;
  currency = prop "currency" body;
}

abbrev pub accept_order : Json → Exec (Response (Answer NewOrder))
accept_order body =
    create_order (prop "user_id" body) (items_in (prop "items" body)) (options_in body) >>= λ order.
    pure (record { status = 202; body = value order })

abbrev pub refuse_order : Error → Exec (Response (Answer NewOrder))
refuse_order x = pure (fails_with 500 "Failed to create order")

abbrev pub answer_check : Check → Json → Exec (Response (Answer NewOrder))
answer_check (malformed message) body = pure (fails_with 400 message)
answer_check crash body = pure (fails_with 500 "Failed to create order")
answer_check valid body = try_catch (accept_order body) refuse_order

-- POST /orders; the answer to an accepted order shows its id, status, total and time.
unfoldable pub post_orders : Json → Exec (Response (Answer NewOrder))
post_orders body = answer_check (check_order body) body

abbrev pub show_error {ℓ} : {A : Type ℓ} → Error → Exec (Response (Answer A))
show_error x = pure (fails_with 500 x.message)

-- POST /dlq/:id/replay
unfoldable pub post_dlq_replay : String → Exec (Response (Answer ReplayResult))
post_dlq_replay id =
    try_catch (replay_dlq id >>= λ r. pure (record { status = 200; body = value r })) show_error

-- POST /replay; an aggregate id that is no text is taken as its text.
unfoldable pub post_replay : Json → Exec (Response (Answer ReplayResult))
post_replay body =
    if truthy (prop "aggregate_id" body)
    then try_catch
        (replay_aggregate (text_of (prop "aggregate_id" body)) >>= λ r.
          pure (record { status = 200; body = value r }))
        show_error
    else pure (fails_with 400 "aggregate_id is required for replay")
