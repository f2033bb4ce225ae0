-- ===== src/Common/Kafka/Race.antt =====
-- A producer and the watcher at the same time.
use axis_chat_server.Prelude.{ℕ, ◌≡◌, refl, true, none, some, Text, =text_refl, ◌∙◌}
use axis_chat_server.Prelude.TextMap.{lookup, lookup-insert, lookup-delete}
use axis_chat_server.Common.Kafka.{
  KafkaClient, Producing, drop_conn, touch, find_conn, found_or_dialled, get_producer_conn, expired,
  find_unused, remove_unused,
}

module _ {K C V : Type 0} (api : KafkaClient K C V) where
  -- neither map has the topic
  abbrev pub Gone : Text → Producing K C → Type 0
  Gone topic w = (lookup topic w.pool.socket_map ≡ none) × (lookup topic w.pool.create_time ≡ none)

  drop_conn-Gone : (topic : Text) (w : Producing K C) → Gone topic (drop_conn topic w)
  drop_conn-Gone topic w = (
    lookup-delete topic topic w.pool.socket_map ∙ rw (=text_refl topic) refl,
    lookup-delete topic topic w.pool.create_time ∙ rw (=text_refl topic) refl,
  )

  -- A connection that was not used for a minute, which a producer asks for while the watcher runs. When
  -- the producer's search and change of the time both fall between the watcher's test and its removal,
  -- the producer has the connection with the time of now, and it is removed and closed all the same.
  -- When the whole of the watcher's step falls between the producer's two parts, the producer has the
  -- closed connection too, and its topic has a time and no connection.
  pub get_producer_conn-remove_unused :
      (topic : Text) (val : ℕ) (conn : C) (w : Producing K C)
      → lookup topic w.pool.socket_map ≡ some conn
      → expired api val w ≡ true
      → (let found = find_unused api topic val w in
          let (got, w1) = get_producer_conn api topic w in
          (got ≡ some conn)
          × (lookup topic w1.pool.create_time ≡ some (api.now w.kafka))
          × (w2 : Producing K C) × (remove_unused api topic found w1 ≡ some w2)
          × Gone topic w2
          × (w2.kafka ≡ api.close_ conn w1.kafka))
        × (let found = find_conn api topic w in
            (w1 : Producing K C) × (remove_unused api topic (find_unused api topic val w) w
              ≡ some w1)
            × (w1.kafka ≡ api.close_ conn w.kafka)
            × (let (got, w2) = found_or_dialled api topic found w1 in
                (got ≡ some conn)
                × (lookup topic w2.pool.socket_map ≡ none)
                × (lookup topic w2.pool.create_time ≡ some (api.now w1.kafka))))
  unfolding get_producer_conn
  get_producer_conn-remove_unused topic val conn w here old =
      let w1 = touch (api.now w.kafka) topic w in
      let dropped = record (drop_conn topic w) { kafka = api.close_ conn w.kafka } in
      (
        rw (get_producer_conn, here, old)
            (
              refl,
              lookup-insert topic topic (api.now w.kafka) w.pool.create_time
                  ∙ rw (=text_refl topic) refl,
              record (drop_conn topic w1) { kafka = api.close_ conn w1.kafka },
              refl,
              drop_conn-Gone topic w1,
              refl,
            ),
        rw (here, old)
            (
              dropped,
              refl,
              refl,
              (
                refl,
                (drop_conn-Gone topic w).0,
                lookup-insert topic topic (api.now dropped.kafka) dropped.pool.create_time
                    ∙ rw (=text_refl topic) refl,
              ),
            ),
      )
