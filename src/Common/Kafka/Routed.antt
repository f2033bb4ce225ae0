-- ===== src/Common/Kafka/Routed.antt =====
-- The connections of the producers lead to the topics that they are kept under, and what a write does
-- to the topics.
use axis_chat_server.Prelude.{
  ℕ, ◌≤◌, ◌≡◌, refl, Bool, Bool-cases, true, false, inl, inr, Option, none, some, is_some, List, [],
  ◌∷◌, ◌++◌, replicate, Text, ◌=text◌, eq_of_=text, ap, sym, subst, ◌∙◌, arith,
}
use mathlib.Core.List.{append-nil}
use axis_chat_server.Prelude.TextMap.{
  lookup, has_key, lookup-insert, lookup-delete, Unique, insert-Unique, delete-Unique,
}
use axis_chat_server.Common.Kafka.{
  KafkaClient, KafkaProducerConn, Producing, topic_of, drop_conn, touch, keep_conn, dialled,
  found_or_dialled, get_producer_conn, after_write, after_deadline, after_conn, topic_produce,
}

-- What kafka documents: a connection leads to the topic that it was dialled for; a write appends one
-- message to that topic, or returns an error and then may have appended it; nothing else changes a topic.
pub record Topics (K C V : Type 0) (api : KafkaClient K C V) : Type 0 where
  pub leads : C → Text
  pub log : Text → K → List V
  pub dial_leads : (t : Text) (k : K) (c : C) → (api.dial_leader t k).0 ≡ some c → leads c ≡ t
  pub dial_log : (t j : Text) (k : K) → log j (api.dial_leader t k).1 ≡ log j k
  pub deadline_log : (c : C) (j : Text) (k : K) → log j (api.set_write_deadline c k).1 ≡ log j k
  pub close_log : (c : C) (j : Text) (k : K) → log j (api.close_ c k) ≡ log j k
  pub write_ok :
      (c : C) (v : V) (k : K)
      → (api.write_message c v k).0 ≡ true
      → log (leads c) (api.write_message c v k).1 ≡ log (leads c) k ++ v ∷ []
  pub write_failed :
      (c : C) (v : V) (k : K)
      → (api.write_message c v k).0 ≡ false
      → (n : ℕ) × (n ≤ 1)
        × (log (leads c) (api.write_message c v k).1 ≡ log (leads c) k ++ replicate n v)
  pub write_apart :
      (c : C) (v : V) (j : Text) (k : K)
      → (leads c =text j) ≡ false
      → log j (api.write_message c v k).1 ≡ log j k

-- how often an attempt has appended its message
abbrev pub Appended : Bool → ℕ → Type 0
Appended true n = n ≡ 1
Appended false n = n ≤ 1

module _ {K C V : Type 0} (api : KafkaClient K C V) (topics : Topics K C V api) where
  -- A connection leads to its topic, and has one time, exactly when it is there.
  pub record IsRouted (pool : KafkaProducerConn C) : Type 0 where
    pub routed : (t : Text) (c : C) → lookup t pool.socket_map ≡ some c → topics.leads c ≡ t
    pub paired : (t : Text) → has_key t pool.socket_map ≡ has_key t pool.create_time
    pub unique : Unique pool.create_time

  pub drop_conn-IsRouted :
      (topic : Text) (w : Producing K C) → IsRouted w.pool → IsRouted (drop_conn topic w).pool
  drop_conn-IsRouted topic w r = record {
    routed = λ t c e. elim (Bool-cases (topic =text t)) [
      | inl hit ↦
          let bad : none ≡ some c =
            sym (lookup-delete topic t w.pool.socket_map ∙ rw hit refl) ∙ e in
          absurd cc
      | inr miss ↦ r.routed t c (sym (lookup-delete topic t w.pool.socket_map ∙ rw miss refl) ∙ e)
    ];
    paired = λ t.
        rw (lookup-delete topic t w.pool.socket_map, lookup-delete topic t w.pool.create_time)
          (elim (Bool-cases (topic =text t)) [
            | inl hit ↦ rw hit refl
            | inr miss ↦ rw miss (r.paired t)
          ]);
    unique = delete-Unique topic w.pool.create_time r.unique;
  }

  pub keep_conn-IsRouted :
      (now : ℕ) (topic : Text) (conn : C) (w : Producing K C)
      → topics.leads conn ≡ topic
      → IsRouted w.pool
      → IsRouted (keep_conn now topic conn w).pool
  keep_conn-IsRouted now topic conn w leads r = record {
    routed = λ t c e. elim (Bool-cases (topic =text t)) [
      | inl hit ↦
          let same : some conn ≡ some c =
            sym (lookup-insert topic t conn w.pool.socket_map ∙ rw hit refl) ∙ e in
          let conn_eq : conn ≡ c = cc in
          ap topics.leads (sym conn_eq) ∙ leads ∙ eq_of_=text topic t hit
      | inr miss ↦
          r.routed t c (sym (lookup-insert topic t conn w.pool.socket_map ∙ rw miss refl) ∙ e)
    ];
    paired = λ t.
        rw
          (
            lookup-insert topic t conn w.pool.socket_map,
            lookup-insert topic t now w.pool.create_time,
          )
          (elim (Bool-cases (topic =text t)) [
            | inl hit ↦ rw hit refl
            | inr miss ↦ rw miss (r.paired t)
          ]);
    unique = insert-Unique topic now w.pool.create_time r.unique;
  }

  touch-IsRouted :
      (now : ℕ) (topic : Text) (w : Producing K C)
      → has_key topic w.pool.socket_map ≡ true
      → IsRouted w.pool
      → IsRouted (touch now topic w).pool
  touch-IsRouted now topic w known r = record {
    routed = r.routed;
    paired = λ t.
        rw (lookup-insert topic t now w.pool.create_time) (elim (Bool-cases (topic =text t)) [
          | inl hit ↦
              rw hit (ap (λ x. has_key x w.pool.socket_map) (sym (eq_of_=text topic t hit)) ∙ known)
          | inr miss ↦ rw miss (r.paired t)
        ]);
    unique = insert-Unique topic now w.pool.create_time r.unique;
  }

  -- What getting a connection leaves.
  record Got (topic : Text) (w : Producing K C) (o : Option C) (w' : Producing K C) : Type 0 where
    routed : IsRouted w'.pool
    leads : (c : C) → o ≡ some c → topics.leads c ≡ topic
    same : (j : Text) → topics.log j w'.kafka ≡ topics.log j w.kafka

  dialled-Got :
      (topic : Text) (q : Option C × K) (w : Producing K C)
      → IsRouted w.pool
      → ((c : C) → q.0 ≡ some c → topics.leads c ≡ topic)
      → ((j : Text) → topics.log j q.1 ≡ topics.log j w.kafka)
      → Got topic w (dialled api topic q w).0 (dialled api topic q w).1
  dialled-Got topic (none, k) w r leads same = record { routed = r; leads = λ c e. cc; same = same }
  dialled-Got topic (some conn, k) w r leads same = record {
    routed = keep_conn-IsRouted (api.now k) topic conn (record w { kafka = k }) (leads conn refl) r;
    leads = leads;
    same = same;
  }

  found_or_dialled-Got :
      (topic : Text) (o : Option C) (w : Producing K C)
      → lookup topic w.pool.socket_map ≡ o
      → IsRouted w.pool
      → Got topic w (found_or_dialled api topic o w).0 (found_or_dialled api topic o w).1
  found_or_dialled-Got topic none w e r =
      dialled-Got topic (api.dial_leader topic w.kafka) w r (λ c. topics.dial_leads topic w.kafka c)
        (λ j. topics.dial_log topic j w.kafka)
  found_or_dialled-Got topic (some conn) w e r = record {
    routed = touch-IsRouted (api.now w.kafka) topic w (ap is_some e) r;
    leads = λ c same. r.routed topic c (e ∙ same);
    same = λ j. refl;
  }

  -- What an attempt to write to a topic leaves.
  pub record Produced (topic : Text) (msg : V) (w : Producing K C) (good : Bool)
      (w' : Producing K C) : Type 0 where
    pub routed : IsRouted w'.pool
    pub here :
        (n : ℕ) × Appended good n
        × (topics.log topic w'.kafka ≡ topics.log topic w.kafka ++ replicate n msg)
    pub others : (j : Text) → (topic =text j) ≡ false → topics.log j w'.kafka ≡ topics.log j w.kafka

  -- an attempt that writes nothing
  unwritten :
      (topic : Text) (msg : V) (w w' : Producing K C)
      → IsRouted w'.pool
      → ((j : Text) → topics.log j w'.kafka ≡ topics.log j w.kafka)
      → Produced topic msg w false w'
  unwritten topic msg w w' r same = record {
    routed = r;
    here = (0, omega arith, same topic ∙ sym (append-nil (topics.log topic w.kafka)));
    others = λ j apart. same j;
  }

  after_write-Produced :
      (topic : Text) (msg : V) (conn : C) (q : Bool × K) (w : Producing K C)
      → IsRouted w.pool
      → ((n : ℕ) × Appended q.0 n
          × (topics.log topic q.1 ≡ topics.log topic w.kafka ++ replicate n msg))
      → ((j : Text) → (topic =text j) ≡ false → topics.log j q.1 ≡ topics.log j w.kafka)
      → Produced topic msg w (after_write api topic conn q w).0 (after_write api topic conn q w).1
  after_write-Produced topic msg conn (true, k) w r here others = record {
    routed = r;
    here = here;
    others = others;
  }
  after_write-Produced topic msg conn (false, k) w r (n, low, e) others = record {
    routed = drop_conn-IsRouted topic (record w { kafka = api.close_ conn k }) r;
    here = (n, low, topics.close_log conn topic k ∙ e);
    others = λ j apart. topics.close_log conn j k ∙ others j apart;
  }

  -- a write on a connection that leads to the topic
  write-Appended :
      (topic : Text) (msg : V) (conn : C) (k : K)
      → topics.leads conn ≡ topic
      → (n : ℕ) × Appended (api.write_message conn msg k).0 n
        × (topics.log topic (api.write_message conn msg k).1
            ≡ topics.log topic k ++ replicate n msg)
  write-Appended topic msg conn k leads = elim (Bool-cases (api.write_message conn msg k).0) [
    | inl good ↦ (
      1,
      subst (λ b. Appended b 1) (sym good) refl,
      subst (λ t. topics.log t (api.write_message conn msg k).1 ≡ topics.log t k ++ msg ∷ []) leads
          (topics.write_ok conn msg k good),
    )
    | inr bad ↦
        let (n, low, e) = topics.write_failed conn msg k bad in
        (
          n,
          subst (λ b. Appended b n) (sym bad) low,
          subst
              (λ t.
                topics.log t (api.write_message conn msg k).1 ≡ topics.log t k ++ replicate n msg)
              leads e,
        )
  ]

  after_deadline-Produced :
      (topic : Text) (msg : V) (conn : C) (q : Bool × K) (w : Producing K C)
      → IsRouted w.pool
      → topics.leads conn ≡ topic
      → ((j : Text) → topics.log j q.1 ≡ topics.log j w.kafka)
      → Produced topic msg w
          (after_deadline api topic conn msg q w).0
          (after_deadline api topic conn msg q w).1
  after_deadline-Produced topic msg conn (false, k) w r leads same =
      unwritten topic msg w (drop_conn topic (record w { kafka = k }))
        (drop_conn-IsRouted topic (record w { kafka = k }) r) same
  after_deadline-Produced topic msg conn (true, k) w r leads same =
      let (n, ran, e) = write-Appended topic msg conn k leads in
      let p =
        after_write-Produced topic msg conn (api.write_message conn msg k) (record w { kafka = k })
          r (n, ran, e)
          (λ j apart. topics.write_apart conn msg j k (ap (λ t. t =text j) leads ∙ apart)) in
      let (m, ran', e') = p.here in
      record {
        routed = p.routed;
        here = (m, ran', e' ∙ ap (λ l. l ++ replicate m msg) (same topic));
        others = λ j apart. p.others j apart ∙ same j;
      }

  after_conn-Produced :
      (topic : Text) (msg : V) (o : Option C) (w w' : Producing K C)
      → Got topic w o w'
      → Produced topic msg w
          (after_conn api topic msg (o, w')).0
          (after_conn api topic msg (o, w')).1
  after_conn-Produced topic msg none w w' g = unwritten topic msg w w' g.routed g.same
  after_conn-Produced topic msg (some conn) w w' g =
      let p =
        after_deadline-Produced topic msg conn (api.set_write_deadline conn w'.kafka) w' g.routed
          (g.leads conn refl) (λ j. topics.deadline_log conn j w'.kafka) in
      let (m, ran, e) = p.here in
      record {
        routed = p.routed;
        here = (m, ran, e ∙ ap (λ l. l ++ replicate m msg) (g.same topic));
        others = λ j apart. p.others j apart ∙ g.same j;
      }

  -- TopicProduce keeps every connection under the topic that it leads to. When it returns without an
  -- error it has appended its message to the topic once; with an error it has appended it at most once;
  -- and no other topic changes.
  pub topic_produce-Produced :
      (object_id : ℕ) (type_ topic : Text) (msg : V) (w : Producing K C)
      → topic_of type_ object_id ≡ some topic
      → IsRouted w.pool
      → Produced topic msg w
          (topic_produce api object_id type_ msg w).0
          (topic_produce api object_id type_ msg w).1
  unfolding topic_produce get_producer_conn
  topic_produce-Produced object_id type_ topic msg w e r =
      rw (topic_produce, e)
        (after_conn-Produced topic msg
          (found_or_dialled api topic (lookup topic w.pool.socket_map) w).0 w
          (found_or_dialled api topic (lookup topic w.pool.socket_map) w).1
          (found_or_dialled-Got topic (lookup topic w.pool.socket_map) w refl r))
