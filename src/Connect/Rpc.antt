-- ===== src/Connect/Rpc.antt =====
-- connect/rpc.go: the calls by which the task layer hands messages to a connect server. The
-- functions of the generated gRPC code are left out: a call is the handler's run.
pub mod Delivery
pub mod Tests
use axis_chat_server.Prelude.{ℕ, ◌+◌, Option, none, some, List, [], ◌∷◌, Text}
use axis_chat_server.Connect.Channel.{Ptr, Payload, Message, push, push_status}
use axis_chat_server.Connect.GroupNode.{update}
use axis_chat_server.Connect.Bucket.{
  Bucket, Memory, Sent, sent, blocked, panic, get_channel, broadcast_room, broadcast_status_room,
}
use axis_chat_server.Connect.Server.{WsServer, bucket}

-- A request's message, with the bytes that `json.Marshal` makes of it. `belong` is the user whose
-- letter box it is for.
pub record FriendBody : Type 0 where
  pub belong : ℕ
  pub payload : Payload

-- kafkaMsgInfo. The key, the headers, the time and the water mark are copied and never read.
pub record KafkaInfo : Type 0 where
  pub topic : Text
  pub partition : ℕ
  pub offset : ℕ

-- What a handler returns: `nil`, or one of its two errors.
pub data RpcResult : Type 0 where
  done : RpcResult
  nil_request : RpcResult
  no_channel : RpcResult

-- The run of a handler: its result and the memory, or a fault of the run time.
pub data Run (A : Type 0) : Type 0 where
  returns : RpcResult → A → Run A
  waits : Run A
  faults : Run A

abbrev pub kafka_msg : KafkaInfo → Payload → Message
kafka_msg info payload = record {
  topic = info.topic;
  partition = info.partition;
  offset = info.offset;
  value = payload;
}

-- One send, and what comes of the later ones if it goes through.
abbrev pub sent_and : Sent Bucket → Sent (List Bucket) → Sent (List Bucket)
sent_and (sent b) (sent bs) = sent (b ∷ bs)
sent_and (sent b) blocked = blocked
sent_and (sent b) panic = panic
sent_and blocked later = blocked
sent_and panic later = panic

-- `for _, bucket := range DefaultServer.Buckets { bucket.BroadcastRoom(kafkaMsg) }`
unfoldable pub broadcast_all : (Bucket → Sent Bucket) → List Bucket → Sent (List Bucket)
broadcast_all f [] = sent []
broadcast_all f (b ∷ bs) = sent_and (f b) (broadcast_all f bs)

abbrev to_all : (Bucket → Sent Bucket) → WsServer → Run WsServer
to_all f ws = elim (broadcast_all f ws.buckets) [
  | sent bs ↦ returns done (record ws { buckets = bs })
  | blocked ↦ waits
  | panic ↦ faults
]

unfoldable pub push_group_info_msg : Option Payload → WsServer → Run WsServer
unfolding broadcast_all
push_group_info_msg none ws = returns nil_request ws
push_group_info_msg (some msg) ws = to_all (broadcast_status_room msg) ws

unfoldable pub push_group_count_msg : Option Payload → WsServer → Run WsServer
unfolding broadcast_all
push_group_count_msg none ws = returns nil_request ws
push_group_count_msg (some msg) ws = to_all (broadcast_status_room msg) ws

unfoldable pub push_group_msg : Option (Payload × KafkaInfo) → WsServer → Run WsServer
unfolding broadcast_all
push_group_msg none ws = returns nil_request ws
push_group_msg (some (msg, info)) ws = to_all (broadcast_room (kafka_msg info msg)) ws

abbrev pub offer_status : Payload → Ptr → Memory → Memory
offer_status msg ch m = record m {
  channels = update m.channels ch (push_status msg (m.channels ch));
}

abbrev pub offer : Message → Ptr → Memory → Memory
offer msg ch m = record m { channels = update m.channels ch (push msg (m.channels ch)) }

-- A write to the buffers of the connection that the user's bucket has for the user.
abbrev pub at_channel : (Ptr → Memory → Memory) → Option Ptr → Memory → Run Memory
at_channel act none m = returns no_channel m
at_channel act (some ch) m = returns done (act ch m)

abbrev pub in_bucket : ℕ → (Ptr → Memory → Memory) → Option Bucket → Memory → Run Memory
in_bucket userid act none m = faults
in_bucket userid act (some b) m = at_channel act (get_channel userid b) m

module _ (city_hash32 : Text → ℕ → ℕ) where
  abbrev to_user : ℕ → (Ptr → Memory → Memory) → WsServer → Memory → Run Memory
  to_user userid act ws m = in_bucket userid act (bucket city_hash32 userid ws) m

  unfoldable pub push_friend_online_msg : Option FriendBody → WsServer → Memory → Run Memory
  push_friend_online_msg none ws m = returns nil_request m
  push_friend_online_msg (some req) ws m = to_user req.belong (offer_status req.payload) ws m

  unfoldable pub push_friend_offline_msg : Option FriendBody → WsServer → Memory → Run Memory
  push_friend_offline_msg none ws m = returns nil_request m
  push_friend_offline_msg (some req) ws m = to_user req.belong (offer_status req.payload) ws m

  -- This handler logs a `nil` request and returns no error.
  unfoldable pub push_friend_msg : Option (FriendBody × KafkaInfo) → WsServer → Memory → Run Memory
  push_friend_msg none ws m = returns done m
  push_friend_msg (some (req, info)) ws m =
      to_user req.belong (offer (kafka_msg info req.payload)) ws m
