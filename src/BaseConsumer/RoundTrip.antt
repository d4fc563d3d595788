-- ===== src/BaseConsumer/RoundTrip.antt =====
-- src/consumers/base-consumer.ts: what `emit` sends is what a consumer reads.
use event_driven_kafka.Base.{
  ◌<>◌, ◌∙◌, eq_iff, Bool-cases, inl, inr, arith, ℕ, suc, String, Bool, true, false, ◌||◌, none,
  some, ◌≡◌, refl, sym, ap, ◌==◌,
}
use event_driven_kafka.Json.{undefined, num, str, obj, Fields, get, truthy, wire, wire_fields}
use event_driven_kafka.Contracts.{EventEnvelope, event_type_name, event_type_of, envelope_fields}
use event_driven_kafka.Contracts.Schema.{validate_event_envelope, is_timestamp}
use event_driven_kafka.World.{World, Env, json}
use text.Mathlib.TextLemmas.{append-eq-nil_iff}
use event_driven_kafka.Exec.{ok, ◌>>=◌}
use event_driven_kafka.Emit.{EmitParams, message_of}
use event_driven_kafka.Database.Outbox.{OutboxRow}
use event_driven_kafka.Relay.{Relay, relay_envelope, relay_message}
use event_driven_kafka.BaseConsumer.{read_envelope, caused, named, stamped}

-- A text with a prefix that is not empty is not empty.
pub prefixed : (p s : String) → (p == "") ≡ false → (p <> s == "") ≡ false
prefixed p s h = elim (Bool-cases (p <> s == "")) [
  | inl e ↦
      absurd (ground (arith, h, (eq_iff p "").1 (append-eq-nil_iff.0 ((eq_iff (p <> s) "").0 e)).0))
  | inr e ↦ e
]

-- What EventEnvelopeSchema asks of an envelope, and that its type's name names no other type.
pub record IsValid (is_datetime : String → Bool) (e : EventEnvelope) : Type 0 where
  pub event_id : (e.event_id == "") ≡ false
  pub event_type : (event_type_name e.event_type == "") ≡ false
  pub known : event_type_of (event_type_name e.event_type) ≡ e.event_type
  pub version : (n : ℕ) × (e.event_version ≡ suc n)
  pub numbered : e.sequence_number ≡ none
  pub aggregate_id : (e.aggregate_id == "") ≡ false
  pub aggregate_type : (e.aggregate_type == "") ≡ false
  pub occurred_at : (is_datetime e.occurred_at || is_timestamp e.occurred_at) ≡ true
  pub dated : (e.occurred_at == "") ≡ false
  pub producer : (e.producer == "") ≡ false
  pub correlation_id : (e.correlation_id == "") ≡ false
  pub causation_id : (e.causation_id == "") ≡ false
  pub schema_version : (n : ℕ) × (e.schema_version ≡ suc n)

-- An object that holds a valid envelope.
record Holds (raw : Fields) (e : EventEnvelope) : Type 0 where
  pub event_id : get "event_id" raw ≡ str e.event_id
  pub event_type : get "event_type" raw ≡ str (event_type_name e.event_type)
  pub version : get "event_version" raw ≡ num e.event_version
  pub numbered : get "sequence_number" raw ≡ undefined
  pub aggregate_id : get "aggregate_id" raw ≡ str e.aggregate_id
  pub aggregate_type : get "aggregate_type" raw ≡ str e.aggregate_type
  pub occurred_at : get "occurred_at" raw ≡ str e.occurred_at
  pub producer : get "producer" raw ≡ str e.producer
  pub correlation_id : get "correlation_id" raw ≡ str e.correlation_id
  pub causation_id : get "causation_id" raw ≡ str e.causation_id
  pub schema_version : get "schema_version" raw ≡ num e.schema_version
  pub payload : get "payload" raw ≡ obj e.payload

truthy-str : (s : String) → (s == "") ≡ false → truthy (str s) ≡ true
truthy-str s h = rw h refl

module _ (is_datetime : String → Bool) (raw : Fields) (e : EventEnvelope) (h : Holds raw e)
    (v : IsValid is_datetime e) where
  named-kept : named raw ≡ raw
  named-kept =
      rw
        (
          h.event_id, v.event_id, h.event_type, v.event_type, h.aggregate_id, v.aggregate_id,
          h.aggregate_type, v.aggregate_type, h.correlation_id, v.correlation_id,
        )
        refl

  stamped-kept : (now : String) → stamped now raw ≡ raw
  stamped-kept now = rw (h.occurred_at, v.dated, h.producer, v.producer, h.payload) refl

  caused-kept : (w : World) → caused raw w ≡ (ok raw, w)
  unfolding caused
  caused-kept w = rw (h.causation_id, v.causation_id) refl

  validated : validate_event_envelope is_datetime raw ≡ some e
  unfolding validate_event_envelope
  validated =
      let (n, hn) = v.version in
      let (k, hk) = v.schema_version in
      rw (h.event_id, v.event_id)
        (rw (h.event_type, v.event_type)
          (rw (h.version, hn)
            (rw (h.numbered) (
              rw (h.aggregate_id, v.aggregate_id)
                (rw (h.aggregate_type, v.aggregate_type)
                  (rw (h.occurred_at, v.occurred_at)
                    (rw (h.producer, v.producer)
                      (rw (h.correlation_id, v.correlation_id)
                        (rw (h.causation_id, v.causation_id)
                          (rw (h.schema_version, hk)
                            (rw (h.payload, v.known)
                              (ap
                                (λ o. some (record e {
                                  event_version = suc n;
                                  sequence_number = o;
                                  schema_version = suc k;
                                }))
                                (sym v.numbered)))))))))))))

read_held :
    (raw : Fields) (e : EventEnvelope) (w : World)
    → Holds raw e
    → IsValid w.env.is_datetime e
    → read_envelope (json (obj raw)) w ≡ (ok e, w)
unfolding read_envelope ◌>>=◌
read_held raw e w h v = rw (named-kept w.env.is_datetime raw e h v) (
    rw (caused-kept w.env.is_datetime raw e h v w) (
      rw (stamped-kept w.env.is_datetime raw e h v (w.env.iso w.clock))
        (rw (validated w.env.is_datetime raw e h v) refl)))

-- An envelope with its payload as JSON carries it.
abbrev pub carried : EventEnvelope → EventEnvelope
carried e = record e { payload = wire_fields e.payload }

carried-Holds :
    (e : EventEnvelope)
    → e.sequence_number ≡ none
    → Holds (wire_fields (envelope_fields e)) (carried e)
unfolding envelope_fields wire
carried-Holds e n = record {
  event_id = refl;
  event_type = refl;
  version = refl;
  numbered = rw n refl;
  aggregate_id = rw n refl;
  aggregate_type = rw n refl;
  occurred_at = rw n refl;
  producer = rw n refl;
  correlation_id = rw n refl;
  causation_id = rw n refl;
  schema_version = rw n refl;
  payload = rw n refl;
}

carried-IsValid :
    (is_datetime : String → Bool) (e : EventEnvelope)
    → IsValid is_datetime e
    → IsValid is_datetime (carried e)
carried-IsValid is_datetime e v = record {
  event_id = v.event_id;
  event_type = v.event_type;
  known = v.known;
  version = v.version;
  numbered = v.numbered;
  aggregate_id = v.aggregate_id;
  aggregate_type = v.aggregate_type;
  occurred_at = v.occurred_at;
  dated = v.dated;
  producer = v.producer;
  correlation_id = v.correlation_id;
  causation_id = v.causation_id;
  schema_version = v.schema_version;
}

read_sent :
    (e : EventEnvelope) (w : World)
    → IsValid w.env.is_datetime e
    → read_envelope (json (wire (obj (envelope_fields e)))) w ≡ (ok (carried e), w)
unfolding wire
read_sent e w v =
    read_held (wire_fields (envelope_fields e)) (carried e) w (carried-Holds e v.numbered)
      (carried-IsValid w.env.is_datetime e v)

-- A message that `emit` builds from a valid envelope without a sequence number is read as this envelope,
-- with its payload as JSON carries it, whoever reads it; reading changes nothing.
pub read_emitted :
    (p : EmitParams) (name : String) (e : EventEnvelope) (w : World)
    → IsValid w.env.is_datetime e
    → read_envelope (message_of p name e).value w ≡ (ok (carried e), w)
unfolding message_of
read_emitted p name e w v = read_sent e w v

-- An outbox row that EventEnvelopeSchema takes as an event, created at a time that it takes as well.
pub record IsSendable (env : Env) (row : OutboxRow) : Type 0 where
  pub id : (row.id == "") ≡ false
  pub event_type : (event_type_name row.content.event_type == "") ≡ false
  pub known : event_type_of (event_type_name row.content.event_type) ≡ row.content.event_type
  pub version : (n : ℕ) × (row.content.event_version ≡ suc n)
  pub aggregate_id : (row.content.aggregate_id == "") ≡ false
  pub aggregate_type : (row.content.aggregate_type == "") ≡ false
  pub created :
      (env.is_datetime (env.iso row.created_at) || is_timestamp (env.iso row.created_at)) ≡ true
  pub dated : (env.iso row.created_at == "") ≡ false
  pub correlation_id : (row.content.correlation_id == "") ≡ false
  pub causation_id : (row.content.causation_id == "") ≡ false

-- The envelope tells the row's event, field by field.
pub record Tells (row : OutboxRow) (env : Env) (e : EventEnvelope) : Type 0 where
  pub id : e.event_id ≡ row.id
  pub event_type : e.event_type ≡ row.content.event_type
  pub version : e.event_version ≡ row.content.event_version
  pub aggregate_id : e.aggregate_id ≡ row.content.aggregate_id
  pub aggregate_type : e.aggregate_type ≡ row.content.aggregate_type
  pub created : e.occurred_at ≡ env.iso row.created_at
  pub correlation_id : e.correlation_id ≡ row.content.correlation_id
  pub causation_id : e.causation_id ≡ row.content.causation_id
  pub payload : e.payload ≡ wire_fields row.content.payload

relayed-IsValid :
    (relay : Relay) (row : OutboxRow) (env : Env)
    → IsSendable env row
    → IsValid env.is_datetime (relay_envelope relay env row)
relayed-IsValid relay row env s = record {
  event_id = s.id;
  event_type = s.event_type;
  known = s.known;
  version = s.version;
  numbered = refl;
  aggregate_id = s.aggregate_id;
  aggregate_type = s.aggregate_type;
  occurred_at = s.created;
  dated = s.dated;
  producer = prefixed "outbox-relay-" relay.worker_id refl;
  correlation_id = s.correlation_id;
  causation_id = s.causation_id;
  schema_version = (0, refl);
}

-- A message that the relay builds from an outbox row which the schema takes is read as an envelope that
-- tells the row's event: its id, type, version, aggregate, correlation and cause, the row's time
-- of creation, and the payload as JSON carries it. Reading changes nothing.
pub read_relayed :
    (relay : Relay) (row : OutboxRow) (sender w : World)
    → sender.env ≡ w.env
    → IsSendable w.env row
    → (e : EventEnvelope) × (read_envelope (relay_message relay sender row).value w ≡ (ok e, w))
      × Tells row w.env e
unfolding relay_message
read_relayed relay row sender w same s = (
  carried (relay_envelope relay w.env row),
  ap (λ env. read_envelope (json (wire (obj (envelope_fields (relay_envelope relay env row))))) w)
        same
      ∙ read_sent (relay_envelope relay w.env row) w (relayed-IsValid relay row w.env s),
  record {
    id = refl;
    event_type = refl;
    version = refl;
    aggregate_id = refl;
    aggregate_type = refl;
    created = refl;
    correlation_id = refl;
    causation_id = refl;
    payload = refl;
  },
)

-- The same for an envelope that is known to be valid.
pub read_relayed_envelope :
    (relay : Relay) (row : OutboxRow) (sender w : World)
    → IsValid w.env.is_datetime (relay_envelope relay sender.env row)
    → read_envelope (relay_message relay sender row).value w
      ≡ (ok (carried (relay_envelope relay sender.env row)), w)
unfolding relay_message
read_relayed_envelope relay row sender w v = read_sent (relay_envelope relay sender.env row) w v
