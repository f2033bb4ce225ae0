-- ===== src/Logic/LetterBox/Written.antt =====
-- A chat message that is pushed stands in the topics that it belongs to.
use mathlib.Core.List.{append_assoc}
use axis_chat_server.Prelude.{
  ℕ, ◌+◌, ◌≤◌, ◌≡◌, refl, Bool, true, false, some, ◌++◌, replicate, replicate-add, Text, ◌=text◌,
  ◌==◌, ap, sym, subst, ◌∙◌, arith,
}
use axis_chat_server.Prelude.Decimal.{decimal-apart}
use axis_chat_server.Common.Param.{op_friend_msg_send, op_group_msg_send}
use axis_chat_server.Common.Kafka.{
  KafkaClient, Producing, topic_of, topic_produce, friend_queue, group_queue,
}
use axis_chat_server.Common.Kafka.Routed.{
  Topics, IsRouted, Produced, Appended, topic_produce-Produced,
}
use axis_chat_server.Logic.LetterBox.{
  ChatMessage, Payload, friend_payload, group_payload, Body, msg_send, body_of, type_of, pushed,
  PushResult, friend_msg, group_msg, retry, or_return, push_topic, push, push_room,
}

-- The message for the letter box of a user.
abbrev pub letter : ChatMessage → ℕ → Body
letter msg owner = msg_send op_friend_msg_send (friend_payload (friend_msg msg owner))

module _ {K C : Type 0} (api : KafkaClient K C Body) (topics : Topics K C Body api) where
  -- A message stands at the end of a topic, once, or twice where a first attempt failed after it had
  -- been stored.
  pub record Delivered (topic : Text) (b : Body) (w w' : Producing K C) : Type 0 where
    pub copies : ℕ
    pub stored : 1 ≤ copies
    pub not_more : copies ≤ 2
    pub appended : topics.log topic w'.kafka ≡ topics.log topic w.kafka ++ replicate copies b

  -- What an attempt with a second one behind it leaves, when it succeeds.
  record Retried (topic : Text) (b : Body) (w w' : Producing K C) : Type 0 where
    routed : IsRouted api topics w'.pool
    delivered : Delivered topic b w w'
    others : (j : Text) → (topic =text j) ≡ false → topics.log j w'.kafka ≡ topics.log j w.kafka

  retry-Retried :
      (topic : Text) (b : Body) (again : Producing K C → Bool × Producing K C)
      (first : Bool × Producing K C) (w : Producing K C)
      → ((v : Producing K C)
          → IsRouted api topics v.pool
          → Produced api topics topic b v (again v).0 (again v).1)
      → Produced api topics topic b w first.0 first.1
      → (retry again first).0 ≡ true
      → Retried topic b w (retry again first).1
  retry-Retried topic b again (true, w1) w writes p good =
      let (n, once, e) = p.here in
      record {
        routed = p.routed;
        delivered = record {
          copies = n;
          stored = omega arith;
          not_more = omega arith;
          appended = e;
        };
        others = p.others;
      }
  retry-Retried topic b again (false, w1) w writes p good =
      let (n, low, e) = p.here in
      let p2 = writes w1 p.routed in
      let (m, ran, e2) = p2.here in
      let once : m ≡ 1 = subst (λ x. Appended x m) good ran in
      record {
        routed = p2.routed;
        delivered = record {
          copies = n + m;
          stored = omega arith;
          not_more = omega arith;
          appended =
              e2
              ∙ ap (λ l. l ++ replicate m b) e
              ∙ append_assoc (topics.log topic w.kafka) (replicate n b) (replicate m b)
              ∙ ap (λ l. topics.log topic w.kafka ++ l) (replicate-add n m b);
        };
        others = λ j apart. p2.others j apart ∙ p.others j apart;
      }

  -- what a push to one topic leaves, when it succeeds
  push_topic-Retried :
      (object_id op : ℕ) (payload : Payload) (topic : Text) (w : Producing K C)
      → topic_of (type_of op) object_id ≡ some topic
      → IsRouted api topics w.pool
      → (push_topic api object_id payload op w).0 ≡ true
      → Retried topic (body_of op payload) w (push_topic api object_id payload op w).1
  unfolding push_topic
  push_topic-Retried object_id op payload topic w e r good =
      retry-Retried topic (body_of op payload)
        (topic_produce api object_id (type_of op) (body_of op payload))
        (topic_produce api object_id (type_of op) (body_of op payload) w) w
        (λ v rv.
          topic_produce-Produced api topics object_id (type_of op) topic (body_of op payload) v e
            rv)
        (topic_produce-Produced api topics object_id (type_of op) topic (body_of op payload) w e r)
        good

  or_return-pushed :
      (next : Producing K C → PushResult × Producing K C) (q : Bool × Producing K C)
      → (or_return next q).0 ≡ pushed
      → (q.0 ≡ true) × (or_return next q ≡ next q.1)
  or_return-pushed next (true, w) e = (refl, refl)
  or_return-pushed next (false, w) e = cc

  -- A delivery between writes to other topics.
  Delivered-between :
      (topic : Text) (b : Body) (w w1 w2 w3 : Producing K C)
      → topics.log topic w1.kafka ≡ topics.log topic w.kafka
      → topics.log topic w3.kafka ≡ topics.log topic w2.kafka
      → Delivered topic b w1 w2
      → Delivered topic b w w3
  Delivered-between topic b w w1 w2 w3 before after d = record {
    copies = d.copies;
    stored = d.stored;
    not_more = d.not_more;
    appended = after ∙ d.appended ∙ ap (λ l. l ++ replicate d.copies b) before;
  }

  -- A Push of a private message between different users that returns without an error has stored it in
  -- the topics of both, in each with that user as the one it belongs to, at the end and once, or twice
  -- where a first attempt returned an error; and no other topic changes. It is assumed of kafka that a
  -- write appends its message to the topic of its connection and that a failed write does so at most once.
  pub push-Delivered :
      (msg : ChatMessage) (w : Producing K C)
      → IsRouted api topics w.pool
      → (msg.friend_id == msg.userid) ≡ false
      → (push api msg w).0 ≡ pushed
      → Delivered (friend_queue msg.friend_id) (letter msg msg.friend_id) w (push api msg w).1
        × Delivered (friend_queue msg.userid) (letter msg msg.userid) w (push api msg w).1
        × ((j : Text)
            → (friend_queue msg.friend_id =text j) ≡ false
            → (friend_queue msg.userid =text j) ≡ false
            → topics.log j (push api msg w).1.kafka ≡ topics.log j w.kafka)
  unfolding push
  push-Delivered msg w r apart e =
      let write = λ (owner : ℕ) (v : Producing K C).
        push_topic api owner (friend_payload (friend_msg msg owner)) op_friend_msg_send v in
      let last : Producing K C → PushResult × Producing K C = λ v. (pushed, v) in
      let first = write msg.friend_id w in
      let (good, ran) = or_return-pushed (λ v. or_return last (write msg.userid v)) first e in
      let second = write msg.userid first.1 in
      let (good2, ran2) = or_return-pushed last second (sym (ap (λ q. q.0) ran) ∙ e) in
      let p =
        push_topic-Retried msg.friend_id op_friend_msg_send
          (friend_payload (friend_msg msg msg.friend_id)) (friend_queue msg.friend_id) w refl r
          good in
      let p2 =
        push_topic-Retried msg.userid op_friend_msg_send
          (friend_payload (friend_msg msg msg.userid)) (friend_queue msg.userid) first.1 refl
          p.routed good2 in
      let there = decimal-apart msg.friend_id msg.userid apart in
      let back : (friend_queue msg.userid =text friend_queue msg.friend_id) ≡ false =
        decimal-apart msg.userid msg.friend_id (ground arith) in
      subst
        (λ q.
          Delivered (friend_queue msg.friend_id) (letter msg msg.friend_id) w q.1
          × Delivered (friend_queue msg.userid) (letter msg msg.userid) w q.1
          × ((j : Text)
              → (friend_queue msg.friend_id =text j) ≡ false
              → (friend_queue msg.userid =text j) ≡ false
              → topics.log j q.1.kafka ≡ topics.log j w.kafka))
        (sym (ran ∙ ran2))
        (
          Delivered-between (friend_queue msg.friend_id) (letter msg msg.friend_id) w w first.1
              second.1 refl (p2.others (friend_queue msg.friend_id) back) p.delivered,
          Delivered-between (friend_queue msg.userid) (letter msg msg.userid) w first.1 second.1
              second.1 (p.others (friend_queue msg.userid) there) refl p2.delivered,
          λ j a b. p2.others j b ∙ p.others j a,
        )

  -- A PushRoom that returns without an error has stored the message at the end of the group's topic,
  -- once or twice, and no other topic changes.
  pub push_room-Delivered :
      (msg : ChatMessage) (w : Producing K C)
      → IsRouted api topics w.pool
      → (push_room api msg w).0 ≡ pushed
      → Delivered
          (group_queue msg.group_id)
          (msg_send op_group_msg_send (group_payload (group_msg msg)))
          w
          (push_room api msg w).1
        × ((j : Text)
            → (group_queue msg.group_id =text j) ≡ false
            → topics.log j (push_room api msg w).1.kafka ≡ topics.log j w.kafka)
  unfolding push_room
  push_room-Delivered msg w r e =
      let last : Producing K C → PushResult × Producing K C = λ v. (pushed, v) in
      let first = push_topic api msg.group_id (group_payload (group_msg msg)) op_group_msg_send w in
      let (good, ran) = or_return-pushed last first e in
      let p =
        push_topic-Retried msg.group_id op_group_msg_send (group_payload (group_msg msg))
          (group_queue msg.group_id) w refl r good in
      subst
        (λ q.
          Delivered (group_queue msg.group_id)
            (msg_send op_group_msg_send (group_payload (group_msg msg))) w q.1
          × ((j : Text)
              → (group_queue msg.group_id =text j) ≡ false
              → topics.log j q.1.kafka ≡ topics.log j w.kafka))
        (sym ran) (p.delivered, p.others)
