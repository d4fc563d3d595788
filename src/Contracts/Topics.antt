-- ===== src/Contracts/Topics.antt =====
-- src/config.ts: topics.*.name
use event_driven_kafka.Base.{String}

abbrev pub orders : String
orders = "orders.events"

abbrev pub payments : String
payments = "payments.events"

abbrev pub inventory : String
inventory = "inventory.events"

abbrev pub fraud : String
fraud = "fraud.events"

abbrev pub shipping : String
shipping = "shipping.events"

abbrev pub notifications : String
notifications = "notifications.events"

abbrev pub dlq : String
dlq = "platform.dlq"
