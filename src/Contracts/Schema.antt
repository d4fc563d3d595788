-- ===== src/Contracts/Schema.antt =====
-- src/contracts/envelope.ts: EventEnvelopeSchema, as a check of a value that JSON.parse yields.
use event_driven_kafka.Base.{
  ℕ, zero, suc, ◌+◌, String, slice, Bool, true, false, ◌||◌, List, [], ◌∷◌, Option, none, some,
  ◌==◌, any, if◌then◌else◌,
}
use event_driven_kafka.Json.{Json, undefined, num, str, obj, Fields, get}
use event_driven_kafka.Contracts.{EventEnvelope, event_type_of}

module _ {ℓ κ} {A : Type ℓ} {B : Type κ} where
  infixl 10 ◌>>=◌
  abbrev pub ◌>>=◌ : Option A → (A → Option B) → Option B
  none >>= f = none
  some a >>= f = f a

-- z.string().min(1)
abbrev pub nonempty_text : Json → Option String
nonempty_text (str s) = if s == "" then none else some s
nonempty_text _ = none

-- z.number().int().positive()
abbrev pub positive : Json → Option ℕ
positive (num zero) = none
positive (num (suc n)) = some (suc n)
positive _ = none

-- `.default(1)`
abbrev pub positive_or_one : Json → Option ℕ
positive_or_one undefined = some 1
positive_or_one v = positive v

-- `.optional()`
abbrev pub optional_positive : Json → Option (Option ℕ)
optional_positive undefined = some none
optional_positive (num zero) = none
optional_positive (num (suc n)) = some (some (suc n))
optional_positive _ = none

-- z.record(z.unknown())
abbrev pub object_fields : Json → Option Fields
object_fields (obj fs) = some fs
object_fields _ = none

abbrev is_digit : String → Bool
is_digit c = any (λ d. d == c) ("0" ∷ "1" ∷ "2" ∷ "3" ∷ "4" ∷ "5" ∷ "6" ∷ "7" ∷ "8" ∷ "9" ∷ [])

-- A text begins, from position `i`, with the characters of a pattern; `d` in it stands for a digit.
begins : List String → ℕ → String → Bool
begins [] i s = true
begins (p ∷ ps) i s =
    let rest = begins ps (i + 1) s in
    let c = slice s i (i + 1) in if (if p == "d" then is_digit c else c == p) then rest else false

-- /^\d{4}-\d{2}-\d{2}T\d{2}:\d{2}:\d{2}/
unfoldable pub is_timestamp : String → Bool
unfolding begins
is_timestamp s =
    begins
      ("d" ∷ "d" ∷ "d" ∷ "d" ∷ "-" ∷ "d" ∷ "d" ∷ "-" ∷ "d" ∷ "d" ∷ "T" ∷ "d" ∷ "d" ∷ ":" ∷ "d" ∷ "d"
        ∷ ":" ∷ "d" ∷ "d" ∷ [])
      0 s

module _ (is_datetime : String → Bool) where
  abbrev pub timestamp : Json → Option String
  timestamp (str s) = if is_datetime s || is_timestamp s then some s else none
  timestamp _ = none

  -- EventEnvelopeSchema.parse on an object; `none` where it throws.
  unfoldable pub validate_event_envelope : Fields → Option EventEnvelope
  validate_event_envelope raw = do
    event_id ← nonempty_text (get "event_id" raw)
    event_type ← nonempty_text (get "event_type" raw)
    event_version ← positive_or_one (get "event_version" raw)
    sequence_number ← optional_positive (get "sequence_number" raw)
    aggregate_id ← nonempty_text (get "aggregate_id" raw)
    aggregate_type ← nonempty_text (get "aggregate_type" raw)
    occurred_at ← timestamp (get "occurred_at" raw)
    producer ← nonempty_text (get "producer" raw)
    correlation_id ← nonempty_text (get "correlation_id" raw)
    causation_id ← nonempty_text (get "causation_id" raw)
    schema_version ← positive_or_one (get "schema_version" raw)
    payload ← object_fields (get "payload" raw)
    some (record {
      event_id = event_id;
      event_type = event_type_of event_type;
      event_version = event_version;
      sequence_number = sequence_number;
      aggregate_id = aggregate_id;
      aggregate_type = aggregate_type;
      occurred_at = occurred_at;
      producer = producer;
      correlation_id = correlation_id;
      causation_id = causation_id;
      schema_version = schema_version;
      payload = payload;
    })
