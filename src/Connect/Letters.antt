-- ===== src/Connect/Letters.antt =====
-- connect/server_ws.go: what is done with a message that was written to a connection: its offset is
-- committed, the topic's lock released, and a chat message kept in a letter box until it is saved. What
-- JSON is read or written is the parameter `Codec`.
pub mod Kept
pub mod Offsets
pub mod Boxes
pub mod Alive
use axis_chat_server.Prelude.{
  ℕ, zero, suc, Bool, true, false, ◌&&◌, not, Option, none, some, List, [], ◌∷◌, ◌++◌, map, Text,
  leb, ◌==◌, if◌then◌else◌,
}
use axis_chat_server.Common.Param.{
  op_friend_msg_send, op_group_msg_send, op_group_oline_user_count_send, op_group_info_send,
  op_friend_online_send, op_friend_off_online_send,
}
use axis_chat_server.Common.Keys.{
  kafka_topic_offset, redis_lock, user_letter_box, group_letter_box, persistent_lock,
}
use axis_chat_server.Common.Redis.{
  Client, Cluster, Result, ok, err, RedisError, redis_get_string, redis_set_string,
  redis_del_string, redis_hset, redis_hget_all,
}
use axis_chat_server.Common.Lock.{
  Scripts, RedisLockObj, new_redis_locker, set_expire, acquire, release,
}
use axis_chat_server.Connect.Channel.{Payload, Message}
use axis_chat_server.Logic.Data.{friend, group}
use axis_chat_server.Db.{Gorm, TMessage, save_msg_in_batches}

-- The offset that was last committed for a topic.
pub record KafkaMsgInfo : Type 0 where
  pub topic : Text
  pub partition : ℕ
  pub offset : ℕ

-- PushGroupMsgReq_Msg and PushFriendMsgReq_Msg, with the fields that are kept
pub record Chat : Type 0 where
  pub userid : ℕ
  pub friend_id : ℕ
  pub group_id : ℕ
  pub snow_id : Text
  pub content : Text
  pub message_type : Text

-- json.Marshal, and json.Unmarshal with the zero record when it fails.
pub record Codec (V : Type 0) : Type 0 where
  pub offset_json : KafkaMsgInfo → V
  pub as_offset : Option V → KafkaMsgInfo
  pub as_chat : Payload → Chat
  pub message_json : TMessage → Text
  pub as_message : Text → TMessage

-- After a step the loop goes on or has returned; or the step waits for a lock, or has crashed.
pub data Pump : Type 0 where
  goes_on : Pump
  returned : Pump
  waiting : Pump
  crashed : Pump

abbrev pub some_ok : {E A : Type 0} → Result E A → Option A
some_ok (ok a) = some a
some_ok (err e) = none

abbrev pub some_value : {E A : Type 0} → Result E (Option A) → Option A
some_value (ok o) = o
some_value (err e) = none

abbrev pub is_taken : Result RedisError Bool → Bool
is_taken (ok b) = b
is_taken (err e) = false

abbrev pub lock_value : Text
lock_value = b'l' ∷ b'o' ∷ b'c' ∷ b'k' ∷ []

-- the row that a message of a group is kept as, and that of a private message
abbrev pub group_row : Chat → TMessage
group_row m = record {
  belong = m.group_id;
  snow_id = m.snow_id;
  type_ = group;
  content = m.content;
  from_a = m.userid;
  to_b = m.group_id;
  message_type = m.message_type;
}

abbrev pub friend_row : ℕ → Chat → TMessage
friend_row userid m = record {
  belong = userid;
  snow_id = m.snow_id;
  type_ = friend;
  content = m.content;
  from_a = m.userid;
  to_b = m.friend_id;
  message_type = m.message_type;
}

abbrev pub offset_info : Message → KafkaMsgInfo
offset_info msg = record { topic = msg.topic; partition = msg.partition; offset = msg.offset }

-- whether another service has consumed the message
abbrev pub is_consumed : ℕ → Message → Bool
is_consumed offset msg = leb msg.offset offset && not (offset == 0)

-- the rest of a step, when the one before it goes on
abbrev pub and_then : {W : Type 0} → Pump × W → (W → Pump × W) → Pump × W
and_then (goes_on, c) next = next c
and_then (returned, c) next = (returned, c)
and_then (waiting, c) next = (waiting, c)
and_then (crashed, c) next = (crashed, c)

module _ {R : Type 0} (scripts : Scripts R) where
  -- `for !lock { lock, _ = rLock.Acquire() }`, for a number of attempts; `none` is that it still waits
  unfoldable pub acquire_until : ℕ → RedisLockObj → Cluster R → Option (Cluster R)
  acquire_until zero rl c = none
  acquire_until (suc attempts) rl c = elim (is_taken (acquire scripts rl c).0) [
    | true ↦ some (acquire scripts rl c).1
    | false ↦ acquire_until attempts rl (acquire scripts rl c).1
  ]

  -- Release of a lock object, which is nil when NewRedisLocker has failed
  abbrev pub release_of : Option RedisLockObj → Cluster R → Pump × Cluster R
  release_of none c = (crashed, c)
  release_of (some rl) c = (goes_on, (release scripts rl c).1)

module _ {R V : Type 0} (api : Client R V) (scripts : Scripts R) (codec : Codec V) where
  abbrev pub put_locked :
      Text → Text → Text → RedisLockObj → Option (Cluster R) → Cluster R → Pump × Cluster R
  put_locked box snow_id body rl none c = (waiting, c)
  put_locked box snow_id body rl (some c1) c =
      (goes_on, (release scripts rl (redis_hset api box snow_id body c1).1).1)

  abbrev pub put_with :
      ℕ → Text → Text → Text → Result RedisError RedisLockObj → Cluster R → Pump × Cluster R
  put_with attempts box snow_id body (err e) c = (crashed, c)
  put_with attempts box snow_id body (ok rl) c =
      let lock = set_expire 60 rl in
      put_locked box snow_id body lock (acquire_until scripts attempts lock c) c

  -- a message into a letter box, under its lock; an error of HSET is logged
  unfoldable pub put_in_box : ℕ → Text → Text → Text → Cluster R → Pump × Cluster R
  unfolding acquire_until
  put_in_box attempts box snow_id body c =
      put_with attempts box snow_id body (new_redis_locker (persistent_lock box) lock_value c) c

  -- the switch on the operation: only chat messages are kept
  unfoldable pub keep_msg : ℕ → ℕ → Payload → Cluster R → Pump × Cluster R
  unfolding put_in_box
  keep_msg attempts userid value c =
      let m = codec.as_chat value in
      if value.op == op_group_msg_send
      then put_in_box attempts (group_letter_box m.group_id) m.snow_id
          (codec.message_json (group_row m)) c
      else if value.op == op_friend_msg_send
      then put_in_box attempts (user_letter_box userid) m.snow_id
          (codec.message_json (friend_row userid m)) c
      else (goes_on, c)

  abbrev pub committed :
      ℕ → ℕ → Message → Option RedisLockObj → Result RedisError Unit × Cluster R → Pump × Cluster R
  committed attempts userid msg locker (err e, c) = (returned, c)
  committed attempts userid msg locker (ok t, c) =
      and_then (release_of scripts locker c) (keep_msg attempts userid msg.value)

  -- what follows when a chat message was written to the web socket
  unfoldable pub hand_over : ℕ → ℕ → Message → Cluster R → Pump × Cluster R
  unfolding keep_msg
  hand_over attempts userid msg c =
      let locker = some_ok (new_redis_locker (redis_lock msg.topic) msg.topic c) in
      let read = redis_get_string api (kafka_topic_offset msg.topic) c in
      let offset = (codec.as_offset (some_value read.0)).offset in
      if is_consumed offset msg
      then release_of scripts locker read.1
      else committed attempts userid msg locker (
          redis_set_string api (kafka_topic_offset msg.topic) (codec.offset_json (offset_info msg))
            0 read.1)
