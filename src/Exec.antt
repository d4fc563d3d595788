-- ===== src/Exec.antt =====
-- The monad of the asynchronous methods: a method changes the world and returns or throws. What was
-- written before a throw stays written. Every call of the database and of Kafka may fail.
pub mod Rules
pub mod Worlds
pub mod Changes
use event_driven_kafka.Base.{ℕ, ◌+◌, String, ◌<>◌, slice, List, [], ◌∷◌, ◌++◌, Option, none, some}
use event_driven_kafka.Database.{Db}
use event_driven_kafka.World.{World, Env, Error, Message, Outcome, done, refused, unacknowledged}

pub data Result {ℓ} (A : Type ℓ) : Type ℓ where
  ok : A → Result A
  err : Error → Result A

abbrev pub Exec {ℓ} : Type ℓ → Type ℓ
Exec A = World → Result A × World

module _ {ℓ} {A : Type ℓ} where
  abbrev pub pure : A → Exec A
  pure a w = (ok a, w)

  abbrev pub throw : Error → Exec A
  throw e w = (err e, w)

  abbrev pub gets : (World → A) → Exec A
  gets f w = (ok (f w), w)

module _ {ℓ κ} {A : Type ℓ} {B : Type κ} where
  abbrev pub continue : Result A → (A → Exec B) → World → Result B × World
  continue (ok a) f w = f a w
  continue (err e) f w = (err e, w)

  infixl 10 ◌>>=◌
  unfoldable pub ◌>>=◌ : Exec A → (A → Exec B) → Exec B
  ◌>>=◌ m f w = let (r, w') = m w in continue r f w'

infixl 10 ◌>>◌
abbrev pub ◌>>◌ {ℓ} : {B : Type ℓ} → Exec (Unit {0}) → Exec B → Exec B
m >> n = m >>= λ _. n

abbrev pub lose {ℓ} : {A : Type ℓ} → Error → Result A × World → Result A × World
lose e (r, w) = (err e, w)

module _ {ℓ} {A : Type ℓ} where
  abbrev pub settle : Exec A → List Outcome → World → Result A × World
  settle m [] w = m w
  settle m (done ∷ os) w = m (record w { outcomes = os })
  settle m (refused e ∷ os) w = (err e, record w { outcomes = os })
  settle m (unacknowledged e ∷ os) w = lose e (m (record w { outcomes = os }))

  -- One call of the database or of Kafka.
  unfoldable pub call : Exec A → Exec A
  call m w = settle m w.outcomes w

  -- A SELECT.
  unfoldable pub query : (Db → A) → Exec A
  unfolding call
  query f = call λ w. (ok (f w.db), w)

  -- A statement that changes rows; it is given CURRENT_TIMESTAMP.
  unfoldable pub statement : (ℕ → Db → A × Db) → Exec A
  unfolding call
  statement f = call λ w. let (a, db) = f w.clock w.db in (ok a, record w { db = db })

  -- COMMIT, or ROLLBACK to the database `db` as it was at BEGIN. A ROLLBACK that fails is ignored,
  -- and the server drops the transaction all the same.
  abbrev pub finish : Db → Result A × World → Result A × World
  finish db (err e, w) = (err e, record w { db = db })
  finish db (ok a, w) = elim w.outcomes [
    | [] ↦ (ok a, w)
    | done ∷ os ↦ (ok a, record w { outcomes = os })
    | refused e ∷ os ↦ (err e, record w { outcomes = os; db = db })
    | unacknowledged e ∷ os ↦ (err e, record w { outcomes = os })
  ]

module _ {ℓ} {A : Type ℓ} where
  abbrev connected : Exec A → Result (Unit {0}) → World → Result A × World
  connected m (err e) w = (err e, w)
  connected m (ok u) w = finish w.db ((call (pure tt) >> m) w)

  -- withTransaction: connect, BEGIN, the callback, COMMIT.
  unfoldable pub with_transaction : Exec A → Exec A
  unfolding call ◌>>=◌
  with_transaction m w = let (r, w') = call {A = Unit {0}} (pure tt) w in connected m r w'

-- A statement that may violate a constraint, `none`; it is given CURRENT_TIMESTAMP.
abbrev pub Sql : Type 0
Sql = Env → ℕ → Db → Option Db

abbrev pub settle_statement : Option Db → World → Result (Unit {0}) × World
settle_statement none w = (err w.env.sql_error, w)
settle_statement (some db) w = (ok tt, record w { db = db })

unfoldable pub attempt : Sql → Exec (Unit {0})
unfolding call
attempt s = call λ w. settle_statement (s w.env w.clock w.db) w

-- producer.send of one message
unfoldable pub send : Message → Exec (Unit {0})
unfolding call
send m = call λ w. (ok tt, record w { kafka = w.kafka ++ m ∷ [] })

-- uuidv4(), crypto.randomUUID()
unfoldable pub fresh_uuid : Exec String
fresh_uuid w = (ok (w.env.uuid w.drawn), record w { drawn = w.drawn + 1 })

-- Math.floor(Math.random() * bound)
unfoldable pub random_below : ℕ → Exec ℕ
random_below bound w = (ok (w.env.random w.drawn bound), record w { drawn = w.drawn + 1 })

-- `${prefix}${uuidv4().slice(0, 8)}`
unfoldable pub short_id : String → Exec String
unfolding fresh_uuid
short_id prefix w =
    (ok (prefix <> slice (w.env.uuid w.drawn) 0 8), record w { drawn = w.drawn + 1 })

-- new Date().toISOString()
abbrev pub now_iso : Exec String
now_iso = gets λ w. w.env.iso w.clock

-- await new Promise((resolve) => setTimeout(resolve, ms))
unfoldable pub sleep : ℕ → Exec (Unit {0})
sleep ms w = (ok tt, record w { clock = w.clock + ms })

module _ {ℓ} {A : Type ℓ} where
  abbrev pub handled : (Error → Exec A) → Result A × World → Result A × World
  handled h (ok a, w) = (ok a, w)
  handled h (err e, w) = h e w

  -- try … catch
  unfoldable pub try_catch : Exec A → (Error → Exec A) → Exec A
  try_catch m h w = handled h (m w)
