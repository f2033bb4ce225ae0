-- ===== src/Common/Kafka/Tests.antt =====
-- One broker in memory, whose next writes may return an error after they are stored.
use axis_chat_server.Prelude.{
  ℕ, zero, suc, ◌≡◌, refl, ◌≤◌, Bool, true, false, none, some, List, [], ◌∷◌, ◌++◌, replicate,
  get_or, Text, ◌=text◌, =text_refl, if◌then◌else◌, arith, sym, ap,
}
use axis_chat_server.Common.Kafka.{
  KafkaClient, Producing, keep_conn, watch_long_time_not_use_conn, find_conn, find_unused,
  remove_unused, found_or_dialled, get_producer_conn, friend_type, friend_queue, topic_produce,
}
use axis_chat_server.Prelude.TextMap.{lookup}
use axis_chat_server.Common.Kafka.Unused.{unless_expired, watch-Closed}
use axis_chat_server.Common.Kafka.Race.{Gone, get_producer_conn-remove_unused}
use axis_chat_server.Common.Kafka.Routed.{
  Topics, IsRouted, Produced, keep_conn-IsRouted, topic_produce-Produced,
}

pub record Broker (V : Type 0) : Type 0 where
  pub log : Text → List V
  pub faults : ℕ

module _ {V : Type 0} where
  -- a write, and whether it answers well
  abbrev pub stored : Text → V → Broker V → ℕ → Bool × Broker V
  stored t v k zero =
      (true, record k { log = λ j. if t =text j then k.log j ++ v ∷ [] else k.log j })
  stored t v k (suc n) =
      (false, record k { log = λ j. if t =text j then k.log j ++ v ∷ [] else k.log j; faults = n })

  -- A connection is the name of its topic.
  abbrev pub broker : KafkaClient (Broker V) Text V
  broker = record {
    dial_leader = λ t k. (some t, k);
    set_write_deadline = λ c k. (true, k);
    write_message = λ c v k. stored c v k k.faults;
    close_ = λ c k. k;
    now = λ k. 100;
  }

  pub stored_ok :
      (t : Text) (v : V) (k : Broker V) (n : ℕ)
      → (stored t v k n).0 ≡ true
      → (stored t v k n).1.log t ≡ k.log t ++ v ∷ []
  stored_ok t v k zero e = rw (=text_refl t) refl
  stored_ok t v k (suc n) e = cc

  pub stored_failed :
      (t : Text) (v : V) (k : Broker V) (n : ℕ)
      → (stored t v k n).0 ≡ false
      → (m : ℕ) × (m ≤ 1) × ((stored t v k n).1.log t ≡ k.log t ++ replicate m v)
  stored_failed t v k zero e = cc
  stored_failed t v k (suc n) e = (1, omega arith, rw (=text_refl t) refl)

  pub stored_apart :
      (t : Text) (v : V) (j : Text) (k : Broker V) (n : ℕ)
      → (t =text j) ≡ false
      → (stored t v k n).1.log j ≡ k.log j
  stored_apart t v j k zero e = rw e refl
  stored_apart t v j k (suc n) e = rw e refl

  abbrev pub broker_topics : Topics (Broker V) Text V broker
  broker_topics = record {
    leads = λ c. c;
    log = λ t k. k.log t;
    dial_leads = λ t k c e. sym (ap (get_or c) e);
    dial_log = λ t j k. refl;
    deadline_log = λ c j k. refl;
    close_log = λ c j k. refl;
    write_ok = λ c v k e. stored_ok c v k k.faults e;
    write_failed = λ c v k e. stored_failed c v k k.faults e;
    write_apart = λ c v j k e. stored_apart c v j k k.faults e;
  }

  -- No connection is open, and the next write fails.
  abbrev pub no_producers : Producing (Broker V) Text
  no_producers = record {
    pool = record { socket_map = []; create_time = [] };
    kafka = record { log = λ t. []; faults = 1 };
  }

  pub no_producers-IsRouted : IsRouted broker broker_topics (no_producers.pool)
  no_producers-IsRouted = record { routed = λ t c e. cc; paired = λ t. refl; unique = tt }

abbrev nine : ℕ
nine = 9

topic_produce-Produced_example :
    Produced broker broker_topics
      (friend_queue 3)
      nine
      no_producers
      (topic_produce broker 3 friend_type nine no_producers).0
      (topic_produce broker 3 friend_type nine no_producers).1
topic_produce-Produced_example =
    topic_produce-Produced broker broker_topics 3 friend_type (friend_queue 3) nine no_producers
      refl no_producers-IsRouted

-- one connection that was not used for a minute and a half, and one that was used ten seconds ago
abbrev old_and_new : Producing (Broker ℕ) Text
old_and_new =
    keep_conn 10 (friend_queue 1) (friend_queue 1)
      (keep_conn 90 (friend_queue 2) (friend_queue 2) no_producers)

watch-Closed_example :
    (w' : Producing (Broker ℕ) Text) × (watch_long_time_not_use_conn broker old_and_new ≡ some w')
    × IsRouted {V = ℕ} broker broker_topics w'.pool
    × ((t : Text)
        → lookup t w'.pool.create_time
          ≡ unless_expired {V = ℕ} broker broker_topics old_and_new
              (lookup t old_and_new.pool.create_time))
watch-Closed_example =
    watch-Closed broker broker_topics (λ c k. refl) old_and_new
      (keep_conn-IsRouted broker broker_topics 10 (friend_queue 1) (friend_queue 1)
        (keep_conn 90 (friend_queue 2) (friend_queue 2) no_producers) refl
        (keep_conn-IsRouted broker broker_topics 90 (friend_queue 2) (friend_queue 2) no_producers
          refl no_producers-IsRouted))

-- the older of the two connections, which a producer asks for
get_producer_conn-remove_unused_example :
    (let found = find_unused broker (friend_queue 1) 10 old_and_new in
      let (got, w1) = get_producer_conn broker (friend_queue 1) old_and_new in
      (got ≡ some (friend_queue 1))
      × (lookup (friend_queue 1) w1.pool.create_time ≡ some 100)
      × (w2 : Producing (Broker ℕ) Text) × (remove_unused broker (friend_queue 1) found w1
          ≡ some w2)
      × Gone {V = ℕ} broker (friend_queue 1) w2
      × (w2.kafka ≡ w1.kafka))
    × (let found = find_conn {V = ℕ} broker (friend_queue 1) old_and_new in
        (w1 : Producing (Broker ℕ) Text) × (remove_unused broker
            (friend_queue 1)
            (find_unused broker (friend_queue 1) 10 old_and_new)
            old_and_new
          ≡ some w1)
        × (w1.kafka ≡ old_and_new.kafka)
        × (let (got, w2) = found_or_dialled {V = ℕ} broker (friend_queue 1) found w1 in
            (got ≡ some (friend_queue 1))
            × (lookup (friend_queue 1) w2.pool.socket_map ≡ none)
            × (lookup (friend_queue 1) w2.pool.create_time ≡ some 100)))
unfolding axis_chat_server.Prelude.Decimal.decimal
get_producer_conn-remove_unused_example =
    get_producer_conn-remove_unused broker (friend_queue 1) 10 (friend_queue 1) old_and_new refl
      refl
