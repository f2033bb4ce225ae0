-- ===== src/Connect/Bucket.antt =====
-- connect/bucket.go: the connections of one bucket by user, its groups by id, and the queues in
-- which messages wait for the bucket's workers. A Go map is a list with one entry for each key.
pub mod Online
pub mod Join
pub mod Leave
pub mod Queue
pub mod Deliver
pub mod Fields
pub mod Tests
use axis_chat_server.Prelude.{
  ℕ, ◌+◌, ◌-◌, ◌%◌, ◌^◌, Bool, ◌&&◌, ◌||◌, Option, none, some, List, [], ◌∷◌, ◌++◌, length,
  get_elem?, lookup, insert, delete, ltb, ◌==◌, if◌then◌else◌, replicate, set,
}
use axis_chat_server.Common.Param.{
  op_group_msg_send, op_group_oline_user_count_send, op_group_info_send,
}
use axis_chat_server.Connect.Channel.{Ptr, Message, Payload}
use axis_chat_server.Connect.GroupNode.{
  Heap, update, GroupNode, new_group_node, put, delete_channel, push_group_msg,
  push_group_status_msg,
}

-- What the pointers lead to. `next_node` is the address of the next `new(GroupNode)`.
pub record Memory : Type 0 where
  pub channels : Heap
  pub nodes : Ptr → GroupNode
  pub next_node : Ptr

pub record Bucket : Type 0 where
  pub socket_map : List (ℕ × Ptr)
  pub group_node : List (ℕ × Ptr)
  pub routine_size : ℕ
  pub routine_idx : ℕ
  pub routine_num : ℕ
  pub routines : List (List Message)
  pub status_routine_idx : ℕ
  pub status_routine_num : ℕ
  pub status_routines : List (List Payload)

-- An `int64` is its bit pattern: this is -1.
abbrev pub no_group : ℕ
no_group = 2 ^ 64 - 1

pub record BucketOptions : Type 0 where
  pub socket_size : ℕ
  pub routine_amount : ℕ
  pub routine_size : ℕ

abbrev pub default_options : BucketOptions
default_options = record { socket_size = 1024; routine_amount = 32; routine_size = 20 }

abbrev pub BucketOption : Type 0
BucketOption = BucketOptions → BucketOptions

unfoldable pub bucket_with_socket_size : ℕ → BucketOption
bucket_with_socket_size size options = record options { socket_size = size }

unfoldable pub bucket_with_routine_amount : ℕ → BucketOption
bucket_with_routine_amount size options = record options { routine_amount = size }

unfoldable pub bucket_with_routine_size : ℕ → BucketOption
bucket_with_routine_size size options = record options { routine_size = size }

abbrev apply_options : BucketOptions → List BucketOption → BucketOptions
apply_options options [] = options
apply_options options (o ∷ os) = apply_options (o options) os

-- `socket_size` is a hint to `make(map)` and has no effect on behaviour.
unfoldable pub new_bucket : List BucketOption → Bucket
new_bucket os =
    let options = apply_options default_options os in
    record {
      socket_map = [];
      group_node = [];
      routine_size = options.routine_size;
      routine_idx = 0;
      routine_num = options.routine_amount;
      routines = replicate options.routine_amount [];
      status_routine_idx = 0;
      status_routine_num = options.routine_amount;
      status_routines = replicate options.routine_amount [];
    }

-- A send on a queue: Go's run time panics on an index out of range or a division by zero, and the
-- sender waits while the queue is full.
pub data Sent (A : Type 0) : Type 0 where
  sent : A → Sent A
  blocked : Sent A
  panic : Sent A

-- `queues[idx] <- msg`
unfoldable pub send : {A : Type 0} → ℕ → A → ℕ → List (List A) → Sent (List (List A))
send size msg idx queues = elim (get_elem? queues idx) [
  | none ↦ panic
  | some q ↦ if ltb (length q) size then sent (set queues idx (q ++ msg ∷ [])) else blocked
]

-- The next index: an atomic addition on a `uint64`, and a remainder.
abbrev pub bump : ℕ → ℕ
bump idx = (idx + 1) % 2 ^ 64

unfoldable pub broadcast_room : Message → Bucket → Sent Bucket
unfolding send
broadcast_room msg b =
    if b.routine_num == 0
    then panic
    else elim (send b.routine_size msg (bump b.routine_idx % b.routine_num) b.routines) [
      | sent qs ↦ sent (record b { routine_idx = bump b.routine_idx; routines = qs })
      | blocked ↦ blocked
      | panic ↦ panic
    ]

unfoldable pub broadcast_status_room : Payload → Bucket → Sent Bucket
unfolding send
broadcast_status_room msg b =
    if b.status_routine_num == 0
    then panic
    else elim (send b.routine_size msg (bump b.status_routine_idx % b.status_routine_num)
        b.status_routines) [
          | sent qs ↦
              sent
                (record b { status_routine_idx = bump b.status_routine_idx; status_routines = qs })
          | blocked ↦ blocked
          | panic ↦ panic
        ]

unfoldable pub get_group_node : ℕ → Bucket → Option Ptr
get_group_node group_id b = lookup group_id b.group_node

unfoldable pub get_channel : ℕ → Bucket → Option Ptr
get_channel userid b = lookup userid b.socket_map

-- A worker's handling of one message from its queue.
unfoldable pub push_to_group : ℕ → Message → Bucket → Memory → Option Memory
unfolding get_group_node
push_to_group fuel msg b m =
    if msg.value.op == op_group_msg_send
    then elim (get_group_node msg.value.group_id b) [
      | none ↦ some m
      | some n ↦ elim (push_group_msg fuel msg (m.nodes n) m.channels) [
        | none ↦ none
        | some h ↦ some (record m { channels = h })
      ]
    ]
    else some m

unfoldable pub push_status_to_group : ℕ → Payload → Bucket → Memory → Option Memory
unfolding get_group_node
push_status_to_group fuel msg b m =
    if (msg.op == op_group_oline_user_count_send) || (msg.op == op_group_info_send)
    then elim (get_group_node msg.group_id b) [
      | none ↦ some m
      | some n ↦ elim (push_group_status_msg fuel msg (m.nodes n) m.channels) [
        | none ↦ none
        | some h ↦ some (record m { channels = h })
      ]
    ]
    else some m

-- The node of a group: the one that the map has, or a new one.
unfoldable pub node_of : Option Ptr → ℕ → Bucket → Memory → Ptr × Bucket × Memory
node_of (some n) group_id b m = (n, b, m)
node_of none group_id b m = (
  m.next_node,
  record b { group_node = insert group_id m.next_node b.group_node },
  record m {
    nodes = update m.nodes m.next_node (new_group_node group_id);
    next_node = m.next_node + 1;
  },
)

abbrev register : ℕ → Ptr → Bucket → Memory → Bucket × Memory
register userid ch b m = (
  record b { socket_map = insert userid ch b.socket_map },
  record m { channels = update m.channels ch (record (m.channels ch) { userid = userid }) },
)

abbrev add_node : Ptr → Ptr → Memory → Memory
add_node ch n m = record m {
  channels =
      update m.channels ch
        (record (m.channels ch) { group_nodes = (m.channels ch).group_nodes ++ n ∷ [] });
}

abbrev put_in_node : Ptr → Ptr → Memory → Memory
put_in_node n ch m =
    let (g, h) = put ch (m.nodes n) m.channels in
    record m { channels = h; nodes = update m.nodes n g }

unfoldable pub put_channel : ℕ → ℕ → Ptr → Bucket → Memory → Bucket × Memory
unfolding node_of
put_channel userid group_id ch b m =
    if group_id == no_group
    then register userid ch b m
    else let (n, b', m') = node_of (lookup group_id b.group_node) group_id b m in
      let (b'', m'') = register userid ch b' (add_node ch n m') in (b'', put_in_node n ch m'')

-- The loop over the nodes of the connection that goes.
unfoldable pub leave_groups : Ptr → List Ptr → Bucket → Memory → Bucket × Memory
leave_groups ch [] b m = (b, m)
leave_groups ch (n ∷ ns) b m =
    let (g, h, emptied) = delete_channel ch (m.nodes n) m.channels in
    leave_groups ch ns
      (if emptied && g.drop then record b { group_node = delete g.group_id b.group_node } else b)
      (record m { channels = h; nodes = update m.nodes n g })

-- The connection that goes is the one that is registered for the user.
unfoldable pub delete_chanel : Ptr → Bucket → Memory → Bucket × Memory
unfolding leave_groups
delete_chanel ch b m = elim (lookup (m.channels ch).userid b.socket_map) [
  | none ↦ (b, m)
  | some c ↦
      leave_groups c (m.channels c).group_nodes
        (record b { socket_map = delete (m.channels c).userid b.socket_map }) m
]
