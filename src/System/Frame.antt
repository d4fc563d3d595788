-- ===== src/System/Frame.antt =====
-- Conditions on the database and on Kafka that a method keeps whatever calls fail: the rules, and the
-- conditions that do not look at the tables which most handlers write.
use event_driven_kafka.Base.{
  ℕ, String, Bool, List, [], ◌∷◌, ◌++◌, Option, none, some, ◌≡◌, refl, sym, ◌∙◌, subst, ◌==◌,
  if◌then◌else◌,
}
use event_driven_kafka.Database.{Db}
use event_driven_kafka.Database.EventStore.{OrderEventRow}
use event_driven_kafka.Database.Orders.{OrderRow}
use event_driven_kafka.Database.Outbox.{DlqOutboxRow}
use event_driven_kafka.Database.Processed.{ProcessedRow}
use event_driven_kafka.Database.Dlq.{DlqRow}
use event_driven_kafka.Database.ReadModels.{
  OrderView, PaymentView, InventoryView, ShipmentView, AppliedEvent,
}
use event_driven_kafka.World.{
  World, Env, Error, Message, Outcome, done, refused, unacknowledged, Consumer,
}
use event_driven_kafka.Exec.{
  Result, Exec, pure, throw, gets, ◌>>=◌, settle, query, statement, Sql, settle_statement, attempt,
  with_transaction, send, random_below, short_id, sleep, try_catch,
}
use event_driven_kafka.Exec.Rules.{
  Cond, Ensures, Ensures-pure, Ensures-throw, Ensures-gets, Ensures-query, Ensures-statement,
  Ensures-transaction, Ensures-if, Ensures-try_catch, Ensures-bind, Ensures-send, Ensures-sleep,
  Ensures-fresh_uuid, Ensures-short_id,
}
use event_driven_kafka.BaseConsumer.{update}
use event_driven_kafka.Emit.{EmitParams, drawn_event_id, draw_event_id, emit}

abbrev pub Keeps {ℓ} : {A : Type ℓ} → Cond → Exec A → Type 0
Keeps C m = Ensures C m (λ r. C)

-- The condition, with Kafka as it is.
abbrev pub Fixed : Cond → List Message → Cond
Fixed C k₀ d k = C d k × (k ≡ k₀)

-- A change of the tables that the condition does not look at.
pub record IsBlind (C : Cond) : Type 0 where
  pub processed_events :
      (d : Db) (k : List Message) (x : List ProcessedRow)
      → C d k
      → C (record d { processed_events = x }) k
  pub dlq_messages :
      (d : Db) (k : List Message) (x : List DlqRow) → C d k → C (record d { dlq_messages = x }) k
  pub dlq_outbox :
      (d : Db) (k : List Message) (x : List DlqOutboxRow)
      → C d k
      → C (record d { dlq_outbox = x }) k
  pub orders :
      (d : Db) (k : List Message) (x : List OrderRow) → C d k → C (record d { orders = x }) k
  pub order_events :
      (d : Db) (k : List Message) (x : List OrderEventRow)
      → C d k
      → C (record d { order_events = x }) k
  pub order_read_model :
      (d : Db) (k : List Message) (x : List OrderView)
      → C d k
      → C (record d { order_read_model = x }) k
  pub payment_read_model :
      (d : Db) (k : List Message) (x : List PaymentView)
      → C d k
      → C (record d { payment_read_model = x }) k
  pub inventory_read_model :
      (d : Db) (k : List Message) (x : List InventoryView)
      → C d k
      → C (record d { inventory_read_model = x }) k
  pub shipment_read_model :
      (d : Db) (k : List Message) (x : List ShipmentView)
      → C d k
      → C (record d { shipment_read_model = x }) k
  pub projection_applied_events :
      (d : Db) (k : List Message) (x : List AppliedEvent)
      → C d k
      → C (record d { projection_applied_events = x }) k

pub Fixed-IsBlind : (C : Cond) (k₀ : List Message) → IsBlind C → IsBlind (Fixed C k₀)
Fixed-IsBlind C k₀ b = record {
  processed_events = λ d k x c. (b.processed_events d k x c.0, c.1);
  dlq_messages = λ d k x c. (b.dlq_messages d k x c.0, c.1);
  dlq_outbox = λ d k x c. (b.dlq_outbox d k x c.0, c.1);
  orders = λ d k x c. (b.orders d k x c.0, c.1);
  order_events = λ d k x c. (b.order_events d k x c.0, c.1);
  order_read_model = λ d k x c. (b.order_read_model d k x c.0, c.1);
  payment_read_model = λ d k x c. (b.payment_read_model d k x c.0, c.1);
  inventory_read_model = λ d k x c. (b.inventory_read_model d k x c.0, c.1);
  shipment_read_model = λ d k x c. (b.shipment_read_model d k x c.0, c.1);
  projection_applied_events = λ d k x c. (b.projection_applied_events d k x c.0, c.1);
}

-- More messages do not matter.
abbrev pub Grows : Cond → Type 0
Grows C = (d : Db) (k : List Message) (m : Message) → C d k → C d (k ++ m ∷ [])

module _ (C : Cond) where
  module _ {ℓ} {A : Type ℓ} where
    pub pure-Keeps : (a : A) → Keeps C (pure a)
    pure-Keeps a = Ensures-pure a (λ d k c. c)

    pub throw-Keeps : (e : Error) → Keeps C (throw {A = A} e)
    throw-Keeps e = Ensures-throw e (λ d k c. c)

    pub gets-Keeps : (f : World → A) → Keeps C (gets f)
    gets-Keeps f = Ensures-gets f (λ a d k c. c)

    pub query-Keeps : (f : Db → A) → Keeps C (query f)
    query-Keeps f = Ensures-query f (λ d k c. c) (λ e d k c. c)

    pub statement-Keeps :
        (f : ℕ → Db → A × Db)
        → ((now : ℕ) (d : Db) (k : List Message) → C d k → C (f now d).1 k)
        → Keeps C (statement f)
    statement-Keeps f h = Ensures-statement f h (λ e d k c. c) (λ e. h)

    pub if-Keeps : (b : Bool) (m n : Exec A) → Keeps C m → Keeps C n → Keeps C (if b then m else n)
    if-Keeps b m n hm hn = Ensures-if b m n (λ e. hm) (λ e. hn)

    pub try-Keeps :
        (m : Exec A) (h : Error → Exec A)
        → Keeps C m
        → ((e : Error) → Keeps C (h e))
        → Keeps C (try_catch m h)
    try-Keeps m h hm hh = Ensures-try_catch m h (λ r. C) hm (λ a d k c. c) hh

    -- A transaction whose callback sends nothing.
    pub transaction-Keeps :
        (m : Exec A) → ((k₀ : List Message) → Keeps (Fixed C k₀) m) → Keeps C (with_transaction m)
    transaction-Keeps m h = record { at = λ w c. ((fixed w.kafka).at w (c, refl)).0 }
      where
        fixed : (k₀ : List Message) → Keeps (Fixed C k₀) (with_transaction m)
        fixed k₀ =
            Ensures-transaction m (λ r. Fixed C k₀) (h k₀) (λ a d k c. c) (λ e a d k c. c)
              (λ e d k c. c) (λ e r d d' k k' p q. (subst (λ k. C d k) (p.1 ∙ sym q.1) p.0, q.1))

  pub then-Keeps {ℓ κ} :
      {A : Type ℓ} {B : Type κ} (m : Exec A) (f : A → Exec B)
      → Keeps C m
      → ((a : A) → Keeps C (f a))
      → Keeps C (m >>= f)
  then-Keeps m f hm hf = Ensures-bind m f (λ r. C) hm hf (λ e d k c. c)

  pub sleep-Keeps : (ms : ℕ) → Keeps C (sleep ms)
  sleep-Keeps ms = Ensures-sleep ms (λ d k c. c)

  pub random_below-Keeps : (bound : ℕ) → Keeps C (random_below bound)
  unfolding random_below
  random_below-Keeps bound = record { at = λ w c. c }

  pub short_id-Keeps : (prefix : String) → Keeps C (short_id prefix)
  short_id-Keeps prefix = Ensures-short_id prefix (λ s d k c. c)

  pub update-Keeps : (f : String → Consumer → Consumer) → Keeps C (update f)
  unfolding update
  update-Keeps f = record { at = λ w c. c }

  -- A statement that may violate a constraint.
  pub attempt-Keeps :
      (s : Sql)
      → ((env : Env) (now : ℕ) (d d' : Db) (k : List Message)
          → s env now d ≡ some d'
          → C d k
          → C d' k)
      → Keeps C (attempt s)
  unfolding attempt
  attempt-Keeps s h = record { at = λ w c. go w.outcomes w c }
    where
      run : World → Result (Unit {0}) × World
      run w = settle_statement (s w.env w.clock w.db) w

      settled :
          (w : World) (o : Option Db)
          → s w.env w.clock w.db ≡ o
          → C w.db w.kafka
          → C (settle_statement o w).1.db (settle_statement o w).1.kafka
      settled w none e c = c
      settled w (some d) e c = h w.env w.clock w.db d w.kafka e c

      kept : (w : World) → C w.db w.kafka → C (run w).1.db (run w).1.kafka
      kept w c = settled w (s w.env w.clock w.db) refl c

      go :
          (os : List Outcome) (w : World)
          → C w.db w.kafka
          → let r = settle run os w in C r.1.db r.1.kafka
      go [] w c = kept w c
      go (done ∷ os) w c = kept (record w { outcomes = os }) c
      go (refused e ∷ os) w c = c
      go (unacknowledged e ∷ os) w c = kept (record w { outcomes = os }) c

  drawn_event_id-Keeps : Keeps C drawn_event_id
  unfolding drawn_event_id
  drawn_event_id-Keeps = then-Keeps _ _ (Ensures-fresh_uuid (λ s d k c. c)) (λ s. pure-Keeps _)

  draw_event_id-Keeps : (o : Option String) → Keeps C (draw_event_id o)
  unfolding draw_event_id
  draw_event_id-Keeps none = drawn_event_id-Keeps
  draw_event_id-Keeps (some s) = if-Keeps (s == "") _ _ drawn_event_id-Keeps (pure-Keeps s)

  module _ (grows : Grows C) where
    pub send-Keeps : (m : Message) → Keeps C (send m)
    send-Keeps m = Ensures-send m (λ d k c. grows d k m c) (λ e d k c. c) (λ e d k c. grows d k m c)

    pub emit-Keeps : (p : EmitParams) → Keeps C (emit p)
    unfolding emit
    emit-Keeps p = then-Keeps _ _ (draw_event_id-Keeps p.event_id) (λ id.
        then-Keeps _ _ (gets-Keeps _) (λ now.
          then-Keeps _ _ (gets-Keeps _)
            (λ name. then-Keeps _ _ (send-Keeps _) (λ u. pure-Keeps _))))
