-- ===== src/Config.antt =====
-- src/config.ts: the topics that the process creates.
use event_driven_kafka.Base.{ℕ, String, List, [], ◌∷◌}
use event_driven_kafka.Contracts.Topics

pub record Topic : Type 0 where
  pub name : String
  pub partitions : ℕ
  pub replication_factor : ℕ
  pub config : List (String × String)  -- each text of `config`, split at its '='

abbrev event_topic : String → Topic
event_topic name = record {
  name = name;
  partitions = 3;
  replication_factor = 1;
  config = ("compression.type", "producer") ∷ ("retention.ms", "604800000") ∷ [];
}

abbrev retry_topic : String → Topic
retry_topic name = record { name = name; partitions = 3; replication_factor = 1; config = [] }

abbrev single_topic : String → List (String × String) → Topic
single_topic name config = record {
  name = name;
  partitions = 1;
  replication_factor = 1;
  config = config;
}

unfoldable pub topics : List Topic
topics =
    event_topic Topics.orders
    ∷ event_topic Topics.payments
    ∷ event_topic Topics.inventory
    ∷ event_topic Topics.fraud
    ∷ event_topic Topics.shipping
    ∷ record (event_topic Topics.notifications) { config = ("retention.ms", "604800000") ∷ [] }
    ∷ retry_topic "orders.retry"
    ∷ retry_topic "payments.retry"
    ∷ retry_topic "inventory.retry"
    ∷ retry_topic "fraud.retry"
    ∷ retry_topic "shipping.retry"
    ∷ single_topic Topics.dlq (("retention.ms", "2592000000") ∷ [])
    ∷ single_topic "platform.events" []
    ∷ single_topic "replay.events" []
    ∷ []
