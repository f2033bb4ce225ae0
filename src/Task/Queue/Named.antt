-- ===== src/Task/Queue/Named.antt =====
-- startTopic finds again the kind and the id that a topic's name was made of.
use axis_chat_server.Prelude.{ℕ, ◌≡◌, refl, some}
use axis_chat_server.Prelude.Int.{pos}
use axis_chat_server.Prelude.Atoi.{split}
use axis_chat_server.Prelude.Decimal.{atoi-decimal, split-decimal}
use axis_chat_server.Common.Kafka.{friend_queue, group_queue, group_type}
use axis_chat_server.Task.Queue.{Listening, start_topic, user_kind}

-- The listener of the topic that TopicProduce writes a group's messages to is started with "group" and
-- the group's id, and that of a user's letter box with "user" and the user's id.
pub start_topic-topic_of :
    (id : ℕ) (s : Listening)
    → ((start_topic (group_queue id) s).0
        ≡ some (record { ty = group_type; id = pos id; topic = group_queue id }))
      × ((start_topic (friend_queue id) s).0
          ≡ some (record { ty = user_kind; id = pos id; topic = friend_queue id }))
unfolding start_topic split
start_topic-topic_of id s =
    (rw (split-decimal id, atoi-decimal id) refl, rw (split-decimal id, atoi-decimal id) refl)
