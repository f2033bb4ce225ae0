-- ===== src/Task/Queue.antt =====
-- task/kafka_queue.go: which topics of kafka are listened to. updateOnlineObj compares the online groups
-- and users in redis with the topics that have a listener, and startTopic takes a topic's name apart.
-- A send on a full channel waits, so that the channel is the sequence of what is sent; a Go map is
-- listed in any order.
pub mod Seen
pub mod Triggered
pub mod Listened
pub mod Named
pub mod Tests
use axis_chat_server.Prelude.{
  ℕ, zero, suc, Bool, true, false, not, Option, none, some, get_or, List, [], ◌∷◌, ◌++◌, Text,
  ◌=text◌, if◌then◌else◌,
}
use axis_chat_server.Prelude.Int.{ℤ, pos, negsuc}
use axis_chat_server.Prelude.Atoi.{atoi, split}
use axis_chat_server.Prelude.Decimal.{decimal}
use axis_chat_server.Prelude.TextMap.{lookup, insert, delete, has_key}
use axis_chat_server.Common.Kafka.{friend_queue, group_queue, friend_type, group_type}

-- `onlineObj`, `objTrigger` and `newTopicTarget`. A trigger is a channel with room for one value; true
-- says that the value waits in it.
pub record Listening : Type 0 where
  pub online_topic : List (Text × Unit {0})
  pub pre_off_trigger : List (Text × Bool)
  pub new_topic_target : List Text

-- `newTopicMap`, beside the shared state
pub record Update : Type 0 where
  pub new_topic_map : List (Text × Unit {0})
  pub listening : Listening

-- `fmt.Sprintf` of the two prefixes with an int, which may be negative
abbrev pub group_topic : ℤ → Text
group_topic (pos n) = group_queue n
group_topic (negsuc n) =
    b'g'
    ∷ b'r'
    ∷ b'o'
    ∷ b'u'
    ∷ b'p'
    ∷ b'_'
    ∷ b'c'
    ∷ b'h'
    ∷ b'a'
    ∷ b't'
    ∷ b'_'
    ∷ b'-'
    ∷ decimal (suc n)

abbrev pub friend_topic : ℤ → Text
friend_topic (pos n) = friend_queue n
friend_topic (negsuc n) =
    b'f'
    ∷ b'r'
    ∷ b'i'
    ∷ b'e'
    ∷ b'n'
    ∷ b'd'
    ∷ b'_'
    ∷ b'c'
    ∷ b'h'
    ∷ b'a'
    ∷ b't'
    ∷ b'_'
    ∷ b'-'
    ∷ decimal (suc n)

abbrev pub is_zero : ℤ → Bool
is_zero (pos zero) = true
is_zero (pos (suc n)) = false
is_zero (negsuc n) = false

abbrev pub on : Text
on = b'o' ∷ b'n' ∷ []

-- a topic that is not in the table is entered and announced
abbrev pub announce : Text → Listening → Listening
announce topic s = if has_key topic s.online_topic then s else record s {
  online_topic = insert topic tt s.online_topic;
  new_topic_target = s.new_topic_target ++ topic ∷ [];
}

unfoldable pub see_topic : Text → Update → Update
see_topic topic u = record {
  new_topic_map = insert topic tt u.new_topic_map;
  listening = announce topic u.listening;
}

unfoldable pub see_groups : List (Text × Text) → Update → Update
unfolding see_topic
see_groups [] u = u
see_groups ((k, v) ∷ group_map) u =
    see_groups group_map (if is_zero (atoi v) then u else see_topic (group_topic (atoi k)) u)

unfoldable pub see_users : List (Text × Text) → Update → Update
unfolding see_topic
see_users [] u = u
see_users ((k, v) ∷ user_map) u =
    see_users user_map (if v =text on then see_topic (friend_topic (atoi k)) u else u)

-- `preOffTrigger[topic] <- 1`: a missing channel, or one whose value is not taken, blocks.
abbrev pub send_trigger : Text → Option Bool → Listening → Option Listening
send_trigger topic none s = none
send_trigger topic (some true) s = none
send_trigger topic (some false) s =
    some (record s { pre_off_trigger = insert topic true s.pre_off_trigger })

-- the loop over the table of the topics, with those that go
unfoldable pub trigger_old :
    List (Text × Unit {0}) → List (Text × Unit {0}) → Listening → Option (Listening × List Text)
trigger_old [] new s = some (s, [])
trigger_old ((topic, x) ∷ topics) new s =
    elim (if has_key topic new
      then some s
      else send_trigger topic (lookup topic s.pre_off_trigger) s) [
        | none ↦ none
        | some s1 ↦ elim (trigger_old topics new s1) [
          | none ↦ none
          | some (s2, old) ↦ some (s2, if has_key topic new then old else topic ∷ old)
        ]
      ]

abbrev pub delete_all : List Text → List (Text × Unit {0}) → List (Text × Unit {0})
delete_all [] m = m
delete_all (topic ∷ old) m = delete_all old (delete topic m)

abbrev pub drop_old : Option (Listening × List Text) → Option Listening
drop_old none = none
drop_old (some (s, old)) = some (record s { online_topic = delete_all old s.online_topic })

-- The arguments are what redis has for GroupOnlineUserCount and AllOnlineUser, nothing on an error.
-- `none`: a send blocks, with a lock held.
unfoldable pub update_online_obj :
    Option (List (Text × Text)) → Option (List (Text × Text)) → Listening → Option Listening
unfolding see_groups see_users trigger_old
update_online_obj group_map user_map s =
    let seen =
      see_users (get_or [] user_map)
        (see_groups (get_or [] group_map) (record { new_topic_map = []; listening = s })) in
    drop_old (trigger_old seen.listening.online_topic seen.new_topic_map seen.listening)

-- What the listener of a topic is started with: its kind and its id.
pub record Started : Type 0 where
  pub ty : Text
  pub id : ℤ
  pub topic : Text

abbrev pub user_kind : Text
user_kind = b'u' ∷ b's' ∷ b'e' ∷ b'r' ∷ []

abbrev pub kind_of : Text → Text
kind_of first =
    if first =text group_type then group_type else if first =text friend_type then user_kind else []

-- `none` is the fault of a name with fewer than three parts.
abbrev pub started_of : Text → List Text → Option Started
started_of topic (a ∷ b ∷ c ∷ rest) = some (record { ty = kind_of a; id = atoi c; topic = topic })
started_of topic parts = none

-- one round of startTopic: the new trigger, and the listener that it starts
unfoldable pub start_topic : Text → Listening → Option Started × Listening
start_topic topic s = (
  started_of topic (split b'_' topic),
  record s { pre_off_trigger = insert topic false s.pre_off_trigger },
)
