-- ===== src/Common/Kafka.antt =====
-- common/kafka.go: the producers, one connection to kafka for each topic, opened when it is first
-- needed. The calls of the kafka client are the parameter `KafkaClient`: `K` is the state of kafka, `C` a
-- connection, `V` the value of a message. Times are in seconds, and `now` reads the clock (time.Now).
-- getProducerConn gives up its lock between the search and the change of the time, and the watcher between
-- the test of a connection and its removal: each part under one lock is a definition of its own.
pub mod Race
pub mod Routed
pub mod Unused
pub mod Tests
use axis_chat_server.Prelude.{
  ℕ, ◌-◌, Bool, true, false, Option, none, some, List, [], ◌∷◌, Text, ◌=text◌, ltb, if◌then◌else◌,
}
use axis_chat_server.Prelude.Decimal.{decimal}
use axis_chat_server.Prelude.TextMap.{lookup, insert, delete}

-- The answers say whether the call returned without an error.
pub record KafkaClient (K C V : Type 0) : Type 0 where
  pub dial_leader : Text → K → Option C × K
  pub set_write_deadline : C → K → Bool × K
  pub write_message : C → V → K → Bool × K
  pub close_ : C → K → K
  pub now : K → ℕ

-- `producerConnMap`
pub record KafkaProducerConn (C : Type 0) : Type 0 where
  pub socket_map : List (Text × C)
  pub create_time : List (Text × ℕ)

pub record Producing (K C : Type 0) : Type 0 where
  pub pool : KafkaProducerConn C
  pub kafka : K

abbrev pub friend_type : Text
friend_type = b'f' ∷ b'r' ∷ b'i' ∷ b'e' ∷ b'n' ∷ b'd' ∷ []

abbrev pub group_type : Text
group_type = b'g' ∷ b'r' ∷ b'o' ∷ b'u' ∷ b'p' ∷ []

-- FriendQueuePrefix and GroupQueuePrefix, with an id
abbrev pub friend_queue : ℕ → Text
friend_queue id =
    b'f' ∷ b'r' ∷ b'i' ∷ b'e' ∷ b'n' ∷ b'd' ∷ b'_' ∷ b'c' ∷ b'h' ∷ b'a' ∷ b't' ∷ b'_' ∷ decimal id

abbrev pub group_queue : ℕ → Text
group_queue id =
    b'g' ∷ b'r' ∷ b'o' ∷ b'u' ∷ b'p' ∷ b'_' ∷ b'c' ∷ b'h' ∷ b'a' ∷ b't' ∷ b'_' ∷ decimal id

-- the topic of an object, or no topic for another type
abbrev pub topic_of : Text → ℕ → Option Text
topic_of type_ id =
    if type_ =text friend_type
    then some (friend_queue id)
    else if type_ =text group_type
    then some (group_queue id)
    else none

module _ {K C : Type 0} where
  abbrev pub drop_conn : Text → Producing K C → Producing K C
  drop_conn topic w = record w {
    pool = record {
      socket_map = delete topic w.pool.socket_map;
      create_time = delete topic w.pool.create_time;
    };
  }

  abbrev pub touch : ℕ → Text → Producing K C → Producing K C
  touch now topic w = record w {
    pool = record w.pool { create_time = insert topic now w.pool.create_time };
  }

  abbrev pub keep_conn : ℕ → Text → C → Producing K C → Producing K C
  keep_conn now topic conn w = record w {
    pool = record {
      socket_map = insert topic conn w.pool.socket_map;
      create_time = insert topic now w.pool.create_time;
    };
  }

module _ {K C V : Type 0} (api : KafkaClient K C V) where
  -- a dialled connection is kept
  abbrev pub dialled : Text → Option C × K → Producing K C → Option C × Producing K C
  dialled topic (none, k) w = (none, record w { kafka = k })
  dialled topic (some conn, k) w =
      (some conn, keep_conn (api.now k) topic conn (record w { kafka = k }))

  -- The part of getProducerConn under the read lock.
  abbrev pub find_conn : Text → Producing K C → Option C
  find_conn topic w = lookup topic w.pool.socket_map

  -- The part of getProducerConn under the write lock, with what was found.
  abbrev pub found_or_dialled : Text → Option C → Producing K C → Option C × Producing K C
  found_or_dialled topic (some conn) w = (some conn, touch (api.now w.kafka) topic w)
  found_or_dialled topic none w = dialled topic (api.dial_leader topic w.kafka) w

  -- Both parts, with nothing between them. `topic` is what TopicProduce and getProducerConn both make
  -- of the type and the id.
  unfoldable pub get_producer_conn : Text → Producing K C → Option C × Producing K C
  get_producer_conn topic w = found_or_dialled topic (find_conn topic w) w

  -- a failed write drops the connection and closes it
  abbrev pub after_write : Text → C → Bool × K → Producing K C → Bool × Producing K C
  after_write topic conn (true, k) w = (true, record w { kafka = k })
  after_write topic conn (false, k) w =
      (false, drop_conn topic (record w { kafka = api.close_ conn k }))

  -- a deadline that cannot be set drops it
  abbrev pub after_deadline : Text → C → V → Bool × K → Producing K C → Bool × Producing K C
  after_deadline topic conn msg (true, k) w =
      after_write topic conn (api.write_message conn msg k) (record w { kafka = k })
  after_deadline topic conn msg (false, k) w = (false, drop_conn topic (record w { kafka = k }))

  abbrev pub after_conn : Text → V → Option C × Producing K C → Bool × Producing K C
  after_conn topic msg (none, w) = (false, w)
  after_conn topic msg (some conn, w) =
      after_deadline topic conn msg (api.set_write_deadline conn w.kafka) w

  abbrev pub produce_to : V → Option Text → Producing K C → Bool × Producing K C
  produce_to msg none w = (false, w)
  produce_to msg (some topic) w = after_conn topic msg (get_producer_conn topic w)

  unfoldable pub topic_produce : ℕ → Text → V → Producing K C → Bool × Producing K C
  unfolding get_producer_conn
  topic_produce object_id type_ msg w = produce_to msg (topic_of type_ object_id) w

  abbrev pub expired : ℕ → Producing K C → Bool
  expired val w = ltb 60 (api.now w.kafka - val)

  -- What the watcher finds of an entry under the read lock: nothing to do, or a connection to close, which
  -- may be nil.
  abbrev pub find_unused : Text → ℕ → Producing K C → Option (Option C)
  find_unused key val w = if expired val w then some (lookup key w.pool.socket_map) else none

  -- Close, where nil is a fault, `none`
  abbrev pub close_found : Option C → Producing K C → Option (Producing K C)
  close_found none w = none
  close_found (some conn) w = some (record w { kafka = api.close_ conn w.kafka })

  -- What the watcher does with what it found: the removal, under the write lock, and Close.
  abbrev pub remove_unused : Text → Option (Option C) → Producing K C → Option (Producing K C)
  remove_unused key none w = some w
  remove_unused key (some conn) w = close_found conn (drop_conn key w)

  -- The loop of watchLongTimeNotUseConn over the entries of CreateTime, in any order, with nothing between
  -- its parts.
  unfoldable pub close_unused : List (Text × ℕ) → Producing K C → Option (Producing K C)
  close_unused [] w = some w
  close_unused ((key, val) ∷ entries) w = elim (remove_unused key (find_unused key val w) w) [
    | none ↦ none
    | some w' ↦ close_unused entries w'
  ]

  -- The watcher waits for one tick and ends.
  unfoldable pub watch_long_time_not_use_conn : Producing K C → Option (Producing K C)
  unfolding close_unused
  watch_long_time_not_use_conn w = close_unused w.pool.create_time w
