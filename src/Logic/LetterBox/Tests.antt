-- ===== src/Logic/LetterBox/Tests.antt =====
-- A message of one user to another, and to a group, with a broker that fails once.
use axis_chat_server.Prelude.{◌≡◌, refl, false, List, [], ◌∷◌, Text, ◌=text◌}
use axis_chat_server.Common.Kafka.{Producing, friend_queue, group_queue}
use axis_chat_server.Common.Kafka.Tests.{
  Broker, broker, broker_topics, no_producers, no_producers-IsRouted,
}
use axis_chat_server.Logic.LetterBox.{ChatMessage, Body, pushed, push, push_room}
use axis_chat_server.Logic.LetterBox.Written.{Delivered, letter, push-Delivered}

abbrev hello : ChatMessage
hello = record {
  userid = 1;
  group_id = 4;
  friend_id = 2;
  content = b'h' ∷ [];
  message_type = [];
  create_at = [];
  from_username = [];
  friend_name = [];
  group_name = [];
  avatar = [];
  watermark = 0;
}

abbrev start : Producing (Broker Body) Text
start = no_producers

pushes : (push broker hello start).0 ≡ pushed
unfolding push axis_chat_server.Common.Kafka.topic_produce axis_chat_server.Prelude.Decimal.decimal
pushes = refl

pushes_room : (push_room broker hello start).0 ≡ pushed
unfolding push_room axis_chat_server.Common.Kafka.topic_produce
    axis_chat_server.Prelude.Decimal.decimal
pushes_room = refl

push-Delivered_example :
    Delivered broker broker_topics
      (friend_queue 2)
      (letter hello 2)
      start
      (push broker hello start).1
    × Delivered broker broker_topics
        (friend_queue 1)
        (letter hello 1)
        start
        (push broker hello start).1
    × ((j : Text)
        → (friend_queue 2 =text j) ≡ false
        → (friend_queue 1 =text j) ≡ false
        → broker_topics.log j (push broker hello start).1.kafka ≡ broker_topics.log j start.kafka)
push-Delivered_example =
    push-Delivered broker broker_topics hello start no_producers-IsRouted refl pushes
