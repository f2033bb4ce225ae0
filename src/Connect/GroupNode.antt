-- ===== src/Connect/GroupNode.antt =====
-- connect/group_node.go: the online members of one group, a doubly linked list through the
-- `Next` and `Prev` fields of the connections. Each method is one step. Put excludes the other methods by the
-- write lock; DeleteChannel takes the read lock only, so that a run in which two removals, or a removal and a
-- walk over the list, overlap is not one of the model's.
pub mod Chain
pub mod Put
pub mod Broadcast
pub mod Shared
pub mod Delete
pub mod Tests
use axis_chat_server.Prelude.{
  ℕ, zero, suc, ◌≡◌, Bool, true, false, Option, none, some, ◌==◌, if◌then◌else◌,
}
use axis_chat_server.Prelude.Int.{ℤ, pos, incr, decr, at_most_zero}
use axis_chat_server.Connect.Channel.{Ptr, nil_ptr, Channel, Message, Payload, push, push_status}

-- The connections in memory.
abbrev pub Heap : Type 0
Heap = Ptr → Channel

abbrev pub update {ℓ} : {A : Type ℓ} → (Ptr → A) → Ptr → A → Ptr → A
update h p c a = if a == p then c else h a

pub record GroupNode : Type 0 where
  pub group_id : ℕ
  pub online_count : ℤ
  pub drop : Bool
  pub socket_head : Ptr

unfoldable pub new_group_node : ℕ → GroupNode
new_group_node group_id = record {
  group_id = group_id;
  online_count = pos 0;
  drop = false;
  socket_head = nil_ptr;
}

abbrev set_prev : Ptr → Ptr → Heap → Heap
set_prev p q h = update h p (record (h p) { prev = q })

abbrev set_next : Ptr → Ptr → Heap → Heap
set_next p q h = update h p (record (h p) { next = q })

-- The connection goes to the front.
unfoldable pub put : Ptr → GroupNode → Heap → GroupNode × Heap
put ch g h =
    let linked = if g.socket_head == nil_ptr then h else set_prev g.socket_head ch h in
    (
      record g { socket_head = ch; online_count = incr g.online_count; drop = false },
      set_prev ch nil_ptr (set_next ch g.socket_head linked),
    )

-- The writes in front of the count: `ch.Next.Prev`, then `ch.Prev.Next` or the head.
unfoldable pub unlink : Ptr → GroupNode → Heap → GroupNode × Heap
unlink ch g h =
    let h' = if (h ch).next == nil_ptr then h else set_prev (h ch).next (h ch).prev h in
    if (h' ch).prev == nil_ptr
    then (record g { socket_head = (h' ch).next }, h')
    else (g, set_next (h' ch).prev (h' ch).next h')

-- Removes a connection; the answer is `drop`, whether the list is taken to be empty.
unfoldable pub delete_channel : Ptr → GroupNode → Heap → GroupNode × Heap × Bool
delete_channel ch g h =
    let (g', h') = unlink ch g h in
    let count = decr g'.online_count in
    (record g' { online_count = count; drop = at_most_zero count }, h', at_most_zero count)

-- `for ch := head; ch != nil; ch = ch.Next`, with an action on each connection. `none` means that
-- the rounds ran out.
unfoldable pub walk : ℕ → (Channel → Channel) → Ptr → Heap → Option Heap
walk zero act p h = none
walk (suc fuel) act p h =
    let rest = walk fuel act (act (h p)).next (update h p (act (h p))) in
    if p == nil_ptr then some h else rest

unfoldable pub push_group_msg : ℕ → Message → GroupNode → Heap → Option Heap
unfolding walk push
push_group_msg fuel msg g h = walk fuel (push msg) g.socket_head h

unfoldable pub push_group_status_msg : ℕ → Payload → GroupNode → Heap → Option Heap
unfolding walk push_status
push_group_status_msg fuel msg g h = walk fuel (push_status msg) g.socket_head h
