-- ===== src/Connect/Bucket/Deliver.antt =====
-- A worker of a bucket delivers each group message to the group's online members.
use axis_chat_server.Prelude.{
  ℕ, ◌<◌, ◌≡◌, true, ◌==◌, ◌||◌, ◌⊎◌, Option, none, some, List, arith, lookup, length,
}
use axis_chat_server.Common.Param.{
  op_group_msg_send, op_group_oline_user_count_send, op_group_info_send,
}
use axis_chat_server.Connect.Channel.{Ptr, Message, Payload, push, push_status}
use axis_chat_server.Connect.GroupNode.{push_group_msg, push_group_status_msg}
use axis_chat_server.Connect.GroupNode.Broadcast.{
  on_members, push_group_msg-members, push_group_status_msg-members,
}
use axis_chat_server.Connect.Bucket.{
  Bucket, Memory, get_group_node, push_to_group, push_status_to_group,
}
use axis_chat_server.Connect.Bucket.Online.{Online, OnlineAt}

-- the two branches of the search for the group's node
push_at :
    (fuel : ℕ) (msg : Message) (m : Memory) (o : Option Ptr) (group_id : ℕ) (xs : List Ptr)
    → OnlineAt o m group_id xs
    → length xs < fuel
    → (elim o [
      | none ↦ some m
      | some n ↦ elim (push_group_msg fuel msg (m.nodes n) m.channels) [
        | none ↦ none
        | some h ↦ some (record m { channels = h })
      ]
    ])
      ≡ some (record m { channels = on_members (push msg) xs m.channels })
push_at fuel msg m none group_id xs at enough = rw at
push_at fuel msg m (some n) group_id xs (below, named, is) enough =
    rw (push_group_msg-members (m.nodes n) xs m.channels fuel msg is enough).0

push_status_at :
    (fuel : ℕ) (msg : Payload) (m : Memory) (o : Option Ptr) (group_id : ℕ) (xs : List Ptr)
    → OnlineAt o m group_id xs
    → length xs < fuel
    → (elim o [
      | none ↦ some m
      | some n ↦ elim (push_group_status_msg fuel msg (m.nodes n) m.channels) [
        | none ↦ none
        | some h ↦ some (record m { channels = h })
      ]
    ])
      ≡ some (record m { channels = on_members (push_status msg) xs m.channels })
push_status_at fuel msg m none group_id xs at enough = rw at
push_status_at fuel msg m (some n) group_id xs (below, named, is) enough =
    rw (push_group_status_msg-members (m.nodes n) xs m.channels fuel msg is enough).0

-- A bucket's worker handles a group chat message by offering it to the buffer of each online member
-- of the group in the bucket, once, and to no other connection; more rounds than members suffice.
pub push_to_group-Online :
    (fuel : ℕ) (msg : Message) (b : Bucket) (m : Memory) (xs : List Ptr)
    → msg.value.op ≡ op_group_msg_send
    → Online b m msg.value.group_id xs
    → length xs < fuel
    → push_to_group fuel msg b m
      ≡ some (record m { channels = on_members (push msg) xs m.channels })
unfolding push_to_group get_group_node
push_to_group-Online fuel msg b m xs group on enough =
    let test : (msg.value.op == op_group_msg_send) ≡ true = ground arith in
    rw test (
      push_at fuel msg m (lookup msg.value.group_id b.group_node) msg.value.group_id xs on.at
        enough)

-- A bucket's worker handles the information or the count of a group by offering it to the status
-- buffer of each online member of the group in the bucket, once, and to no other connection; more
-- rounds than members suffice.
pub push_status_to_group-Online :
    (fuel : ℕ) (msg : Payload) (b : Bucket) (m : Memory) (xs : List Ptr)
    → (msg.op ≡ op_group_oline_user_count_send) ⊎ (msg.op ≡ op_group_info_send)
    → Online b m msg.group_id xs
    → length xs < fuel
    → push_status_to_group fuel msg b m
      ≡ some (record m { channels = on_members (push_status msg) xs m.channels })
unfolding push_status_to_group
push_status_to_group-Online fuel msg b m xs kind on enough =
    let test : ((msg.op == op_group_oline_user_count_send) || (msg.op == op_group_info_send))
        ≡ true =
      ground arith in
    rw test
      (push_status_at fuel msg m (lookup msg.group_id b.group_node) msg.group_id xs on.at enough)
