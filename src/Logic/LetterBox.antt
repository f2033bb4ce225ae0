-- ===== src/Logic/LetterBox.antt =====
-- Push and PushRoom of logic/rpc.go, over Push of logic/publish.go: a chat message is written to the
-- topics of kafka, a private one to the letter boxes of both users. A message stands for its JSON.
pub mod Written
pub mod Tests
use axis_chat_server.Prelude.{ℕ, Bool, true, false, Text, ◌==◌, if◌then◌else◌}
use axis_chat_server.Common.Param.{op_friend_msg_send, op_group_msg_send}
use axis_chat_server.Common.Kafka.{KafkaClient, Producing, friend_type, group_type, topic_produce}

pub record GroupMsg : Type 0 where
  pub userid : ℕ
  pub group_id : ℕ
  pub content : Text
  pub message_type : Text
  pub create_at : Text
  pub group_name : Text
  pub from_username : Text
  pub avatar : Text
  pub op : ℕ
  pub watermark : ℕ

pub record FriendMsg : Type 0 where
  pub userid : ℕ
  pub friend_id : ℕ
  pub content : Text
  pub message_type : Text
  pub create_at : Text
  pub friend_name : Text
  pub from_username : Text
  pub avatar : Text
  pub op : ℕ
  pub belong : ℕ
  pub watermark : ℕ

-- the ChatMessage of a request
pub record ChatMessage : Type 0 where
  pub userid : ℕ
  pub group_id : ℕ
  pub friend_id : ℕ
  pub content : Text
  pub message_type : Text
  pub create_at : Text
  pub from_username : Text
  pub friend_name : Text
  pub group_name : Text
  pub avatar : Text
  pub watermark : ℕ

pub data Payload : Type 0 where
  group_payload : GroupMsg → Payload
  friend_payload : FriendMsg → Payload

-- the JSON of a MsgSend, or of `nil`
pub data Body : Type 0 where
  msg_send : (op : ℕ) → Payload → Body
  null_body : Body

pub data PushResult : Type 0 where
  pushed : PushResult
  system_failure : PushResult

abbrev pub body_of : ℕ → Payload → Body
body_of op payload =
    if op == op_group_msg_send
    then msg_send op_group_msg_send payload
    else if op == op_friend_msg_send
    then msg_send op_friend_msg_send payload
    else null_body

abbrev pub type_of : ℕ → Text
type_of op = if op == op_group_msg_send then group_type else friend_type

-- `payload` of the handler Push, for the letter box of a user
abbrev pub friend_msg : ChatMessage → ℕ → FriendMsg
friend_msg msg belong = record {
  userid = msg.userid;
  friend_id = msg.friend_id;
  content = msg.content;
  message_type = msg.message_type;
  create_at = msg.create_at;
  friend_name = msg.friend_name;
  from_username = msg.from_username;
  avatar = msg.avatar;
  op = op_friend_msg_send;
  belong = belong;
  watermark = msg.watermark;
}

-- `payload` of the handler PushRoom
abbrev pub group_msg : ChatMessage → GroupMsg
group_msg msg = record {
  userid = msg.userid;
  group_id = msg.group_id;
  content = msg.content;
  message_type = msg.message_type;
  create_at = msg.create_at;
  group_name = msg.group_name;
  from_username = msg.from_username;
  avatar = msg.avatar;
  op = op_group_msg_send;
  watermark = msg.watermark;
}

-- one more attempt after a failure
abbrev pub retry : {W : Type 0} → (W → Bool × W) → Bool × W → Bool × W
retry again (true, w) = (true, w)
retry again (false, w) = again w

-- the rest of a handler, or its return when an attempt has failed
abbrev pub or_return : {W : Type 0} → (W → PushResult × W) → Bool × W → PushResult × W
or_return next (true, w) = next w
or_return next (false, w) = (system_failure, w)

module _ {K C : Type 0} (api : KafkaClient K C Body) where
  -- Push of logic/publish.go
  unfoldable pub push_topic : ℕ → Payload → ℕ → Producing K C → Bool × Producing K C
  push_topic object_id payload op w =
      let again = topic_produce api object_id (type_of op) (body_of op payload) in
      retry again (again w)

  -- the handler Push: the friend's letter box, then the sender's own
  unfoldable pub push : ChatMessage → Producing K C → PushResult × Producing K C
  unfolding push_topic
  push msg w =
      let write = λ (owner : ℕ) (w : Producing K C).
        push_topic owner (friend_payload (friend_msg msg owner)) op_friend_msg_send w in
      or_return (λ w1. or_return (λ w2. (pushed, w2)) (write msg.userid w1)) (write msg.friend_id w)

  unfoldable pub push_room : ChatMessage → Producing K C → PushResult × Producing K C
  unfolding push_topic
  push_room msg w =
      or_return (λ w1. (pushed, w1))
        (push_topic msg.group_id (group_payload (group_msg msg)) op_group_msg_send w)
