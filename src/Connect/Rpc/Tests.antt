-- ===== src/Connect/Rpc/Tests.antt =====
-- A server with one bucket.
use axis_chat_server.Prelude.{
  ℕ, ◌<◌, ◌≡◌, refl, Option, some, List, [], ◌∷◌, arith, Text, length, set,
}
use axis_chat_server.Connect.GroupNode.Tests.{hello}
use axis_chat_server.Connect.Bucket.{put_channel}
use axis_chat_server.Connect.Bucket.Tests.{one_group, memory, pair-Online, one_group-HasQueues}
use axis_chat_server.Connect.Server.{WsServer, bucket, bucket_index, default_ws_options}
use axis_chat_server.Connect.Rpc.{
  FriendBody, KafkaInfo, returns, done, push_group_msg, push_friend_msg, kafka_msg, offer,
}
use axis_chat_server.Connect.Rpc.Delivery.{
  Reached, push_group_msg-EachQueued, push_friend_msg-put_channel,
}

abbrev pub len_hash : Text → ℕ → ℕ
len_hash s n = n

abbrev pub server : WsServer
server = record { buckets = one_group ∷ []; bucket_num = 1; options = default_ws_options }

abbrev info : KafkaInfo
info = record { topic = []; partition = 0; offset = 3 }

abbrev request : FriendBody
request = record { belong = 10; payload = record { op = 0; group_id = 0; body = b'h' ∷ [] } }

push_group_msg-EachQueued_example :
    Reached (kafka_msg info hello) server (push_group_msg (some (hello, info)) server)
push_group_msg-EachQueued_example =
    push_group_msg-EachQueued hello info server (one_group-HasQueues, tt)

pub bucket-server : bucket len_hash 10 server ≡ some one_group
unfolding bucket bucket_index axis_chat_server.Prelude.Decimal.decimal
bucket-server = refl

push_friend_msg-put_channel_example :
    push_friend_msg len_hash
      (some (request, info))
      (record server {
        buckets =
            set
              (one_group ∷ [])
              (bucket_index len_hash 10 server)
              (put_channel 10 7 1 one_group memory).0;
      })
      (put_channel 10 7 1 one_group memory).1
    ≡ returns done
        (offer (kafka_msg info request.payload) 1 (put_channel 10 7 1 one_group memory).1)
push_friend_msg-put_channel_example =
    push_friend_msg-put_channel len_hash 7 1 request info server memory one_group (2 ∷ 3 ∷ [])
      bucket-server (ground arith) (ground arith) refl pair-Online
