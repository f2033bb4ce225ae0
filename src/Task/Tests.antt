-- ===== src/Task/Tests.antt =====
-- Three users of a group, on two connect servers.
use axis_chat_server.Prelude.{ℕ, ◌≡◌, refl, none, List, [], ◌∷◌, Text}
use axis_chat_server.Common.Redis.{Client, Cluster, value, ok, redis_hget_all, redis_get_string}
use axis_chat_server.Common.Redis.Tests.{Server, client, cluster_of, nothing}
use axis_chat_server.Logic.Data.{Stored}
use axis_chat_server.Common.Keys.{group_online_user, userid_map_server_id}
use axis_chat_server.Task.{Payload, group_status_call, push_status_msg_to_connect}
use axis_chat_server.Task.Once.{Once, is_named, push_status_msg_to_connect-Once}

abbrev users : List (Text × Text)
users = (b'5' ∷ [], b'x' ∷ []) ∷ (b'6' ∷ [], b'y' ∷ []) ∷ (b'7' ∷ [], b'x' ∷ []) ∷ []

abbrev with_users : Client (Server Stored) Stored
with_users = record client { hget_all = λ k r. (value users, r) }

abbrev payload : ℕ → Payload
payload op = record { op = op; group_id = 7; belong = 5; body = [] }

abbrev cluster : Cluster (Server Stored)
cluster = cluster_of nothing

has_users : (redis_hget_all with_users (group_online_user 7) cluster).0 ≡ ok users
unfolding redis_hget_all axis_chat_server.Ring.get axis_chat_server.Ring.ring_key
    axis_chat_server.Ring.search
has_users = refl

no_server : (redis_get_string with_users (userid_map_server_id 5) cluster).0 ≡ ok none
unfolding redis_get_string axis_chat_server.Ring.get axis_chat_server.Ring.ring_key
    axis_chat_server.Ring.search
no_server = refl

push_status_msg_to_connect-Once_example :
    Once
      (group_status_call (payload 4))
      is_named
      users
      (push_status_msg_to_connect with_users (payload 4) cluster).0
push_status_msg_to_connect-Once_example =
    push_status_msg_to_connect-Once with_users (payload 4) cluster users refl has_users
