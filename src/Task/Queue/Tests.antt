-- ===== src/Task/Queue/Tests.antt =====
-- A group and a user that are online, and one user who has left.
use axis_chat_server.Prelude.{
  ◌≡◌, refl, Bool-cases, true, false, inl, inr, Option, some, List, [], ◌∷◌, Text, ◌=text◌,
}
use axis_chat_server.Prelude.Int.{pos}
use axis_chat_server.Prelude.TextMap.{lookup, has_key}
use axis_chat_server.Common.Kafka.{friend_queue, group_queue, group_type}
use axis_chat_server.Task.Queue.{Listening, on, start_topic, user_kind, update_online_obj}
use axis_chat_server.Task.Queue.Listened.{Refreshed, wanted_of, update_online_obj-Refreshed}
use axis_chat_server.Task.Queue.Named.{start_topic-topic_of}

abbrev left_user : Text
left_user = friend_queue 6

-- the topic of the user who has left, with its listener
abbrev listening : Listening
listening = record {
  online_topic = (left_user, tt) ∷ [];
  pre_off_trigger = (left_user, false) ∷ [];
  new_topic_target = [];
}

abbrev groups : Option (List (Text × Text))
groups = some ((b'7' ∷ [], b'2' ∷ []) ∷ (b'8' ∷ [], b'0' ∷ []) ∷ [])

abbrev users : Option (List (Text × Text))
users = some ((b'5' ∷ [], on) ∷ (b'6' ∷ [], b'o' ∷ []) ∷ [])

listening-ready :
    (t : Text)
    → has_key t listening.online_topic ≡ true
    → lookup t listening.pre_off_trigger ≡ some false
listening-ready t e = elim (Bool-cases (left_user =text t)) [
  | inl hit ↦ rw hit refl
  | inr miss ↦ let bad : false ≡ true = rw miss at e in absurd cc
]

update_online_obj-Refreshed_example :
    (s' : Listening) × (update_online_obj groups users listening ≡ some s')
    × Refreshed (wanted_of groups users) listening s'
update_online_obj-Refreshed_example =
    update_online_obj-Refreshed groups users listening (refl, tt) listening-ready

start_topic-topic_of_example :
    ((start_topic (group_queue 7) listening).0
      ≡ some (record { ty = group_type; id = pos 7; topic = group_queue 7 }))
    × ((start_topic (friend_queue 7) listening).0
        ≡ some (record { ty = user_kind; id = pos 7; topic = friend_queue 7 }))
start_topic-topic_of_example = start_topic-topic_of 7 listening
