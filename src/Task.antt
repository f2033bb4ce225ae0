-- ===== src/Task.antt =====
-- task/push.go: which connect servers a message is handed to. A round of a worker is one message; the
-- calls of task/rpc.go are collected, and what the JSON of a message stands for is its argument.
pub mod Once
pub mod Queue
pub mod Tests
use axis_chat_server.Prelude.{
  ℕ, Bool, true, false, ◌||◌, Option, none, some, List, [], ◌∷◌, map, Text, ◌=text◌, ◌==◌,
  if◌then◌else◌,
}
use axis_chat_server.Common.Param.{
  op_group_msg_send, op_friend_msg_send, op_group_info_send, op_group_oline_user_count_send,
  op_friend_online_send, op_friend_off_online_send,
}
use axis_chat_server.Common.Keys.{group_online_user, userid_map_server_id}
use axis_chat_server.Common.Redis.{
  Client, Cluster, Result, ok, err, RedisError, redis_hget_all, redis_get_string,
}
use axis_chat_server.Logic.Data.{Stored, as_text}

-- The fields that the workers read: the operation, the group, and whose letter box it is.
pub record Payload : Type 0 where
  pub op : ℕ
  pub group_id : ℕ
  pub belong : ℕ
  pub body : Text

-- A call of a connect server, by the server's id.
pub data Call : Type 0 where
  group_info_msg_call : Text → Payload → Call
  group_count_msg_call : Text → Payload → Call
  friend_online_msg_call : Text → Payload → Call
  friend_offline_msg_call : Text → Payload → Call
  group_msg_call : Text → Payload → Call
  friend_msg_call : Text → Payload → Call

-- After a round the worker goes on, or has returned from its loop.
pub data Round : Type 0 where
  goes_on : List Call → Round
  returned : Round

-- The keys of `serverIdMap`, in the order of their first values. Go's order is arbitrary.
abbrev pub mem : Text → List Text → Bool
mem s [] = false
mem s (t ∷ ts) = if t =text s then true else mem s ts

abbrev pub without_id : Text → List Text → List Text
without_id s [] = []
without_id s (t ∷ ts) = let rest = without_id s ts in if t =text s then rest else t ∷ rest

unfoldable pub server_id_map : List (Text × Text) → List Text
server_id_map [] = []
server_id_map ((user, s) ∷ users) = s ∷ without_id s (server_id_map users)

-- a call for each server id but the empty one
abbrev pub calls : (Text → Call) → List Text → List Call
calls call ids = map call (without_id [] ids)

abbrev pub group_status_call : Payload → Text → Call
group_status_call msg server_id =
    if msg.op == op_group_info_send
    then group_info_msg_call server_id msg
    else group_count_msg_call server_id msg

abbrev pub friend_status_call : Payload → Text → Call
friend_status_call msg server_id =
    if msg.op == op_friend_online_send
    then friend_online_msg_call server_id msg
    else friend_offline_msg_call server_id msg

-- An error of redis is logged, and the worker goes on.
abbrev pub group_round :
    (List (Text × Text) → List Call) → Result RedisError (List (Text × Text)) → Round
group_round make (ok users) = goes_on (make users)
group_round make (err e) = goes_on []

abbrev friend_round : (Text → Round) → Result RedisError (Option Stored) → Round
friend_round next (ok res) = next (as_text res)
friend_round next (err e) = goes_on []

module _ {R : Type 0} (api : Client R Stored) where
  -- A friend without a server id ends the worker.
  unfoldable pub push_status_msg_to_connect : Payload → Cluster R → Round × Cluster R
  unfolding server_id_map
  push_status_msg_to_connect msg c =
      let (users, c1) = redis_hget_all api (group_online_user msg.group_id) c in
      let (res, c2) = redis_get_string api (userid_map_server_id msg.belong) c in
      if (msg.op == op_group_info_send) || (msg.op == op_group_oline_user_count_send)
      then (group_round (λ l. calls (group_status_call msg) (server_id_map l)) users, c1)
      else if (msg.op == op_friend_online_send) || (msg.op == op_friend_off_online_send)
      then (
        friend_round
            (λ id. if id =text [] then returned else goes_on (friend_status_call msg id ∷ [])) res,
        c2,
      )
      else (goes_on [], c)

  -- The chat messages go to an empty server id too.
  unfoldable pub push_msg_to_connect : Payload → Cluster R → Round × Cluster R
  unfolding server_id_map
  push_msg_to_connect msg c =
      let (users, c1) = redis_hget_all api (group_online_user msg.group_id) c in
      let (res, c2) = redis_get_string api (userid_map_server_id msg.belong) c in
      if msg.op == op_group_msg_send
      then (group_round (λ l. map (λ id. group_msg_call id msg) (server_id_map l)) users, c1)
      else if msg.op == op_friend_msg_send
      then (friend_round (λ id. goes_on (friend_msg_call id msg ∷ [])) res, c2)
      else (goes_on [], c)
