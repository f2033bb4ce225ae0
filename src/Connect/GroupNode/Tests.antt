-- ===== src/Connect/GroupNode/Tests.antt =====
-- The list of a group on small examples.
use axis_chat_server.Prelude.{ℕ, ◌≡◌, refl, false, some, List, [], ◌∷◌, arith, ◌==◌, if◌then◌else◌}
use axis_chat_server.Prelude.Int.{pos}
use axis_chat_server.Connect.Channel.{Ptr, Channel, Message, Payload, push}
use axis_chat_server.Connect.GroupNode.{Heap, GroupNode, put, delete_channel, push_group_msg}
use axis_chat_server.Connect.GroupNode.Chain.{IsGroup, Disjoint}
use axis_chat_server.Connect.GroupNode.Delete.{erase, is_empty, delete_channel-IsGroup}
use axis_chat_server.Connect.GroupNode.Broadcast.{on_members}
use axis_chat_server.Connect.GroupNode.Shared.{put_twice-leaks}

abbrev pub idle : Channel
idle = record {
  size = 4;
  broadcast_msg = [];
  broadcast_status = [];
  userid = 0;
  next = 0;
  prev = 0;
  group_nodes = [];
}

-- The connections 2 and 3 of the users 20 and 30 are linked in the list of the node 5; 4 is an
-- older connection of the user 20.
abbrev pub two_linked : Heap
two_linked p =
    if p == 2
    then record idle { next = 3; userid = 20; group_nodes = 5 ∷ [] }
    else if p == 3
    then record idle { prev = 2; userid = 30; group_nodes = 5 ∷ [] }
    else if p == 4
    then record idle { userid = 20 }
    else idle

abbrev pub node : ℕ → ℕ → Ptr → GroupNode
node group_id count head = record {
  group_id = group_id;
  online_count = pos count;
  drop = false;
  socket_head = head;
}

pub pair-IsGroup : IsGroup two_linked (node 7 2 2) (2 ∷ 3 ∷ [])
pair-IsGroup = record {
  chain = (refl, ground arith, refl, refl, (refl, ground arith, refl, refl, refl));
  count = refl;
}

pub empty-IsGroup : IsGroup two_linked (node 8 0 0) []
empty-IsGroup = record { chain = refl; count = refl }

abbrev pub hello : Payload
hello = record { op = 1; group_id = 7; body = [] }

abbrev pub hello_msg : Message
hello_msg = record { topic = []; partition = 0; offset = 0; value = hello }

delete_channel-IsGroup_example :
    IsGroup
      (delete_channel 2 (node 7 2 2) two_linked).1
      (delete_channel 2 (node 7 2 2) two_linked).0
      (erase 2 (2 ∷ 3 ∷ []))
    × ((delete_channel 2 (node 7 2 2) two_linked).2 ≡ is_empty (erase 2 (2 ∷ 3 ∷ [])))
    × ((delete_channel 2 (node 7 2 2) two_linked).0.drop ≡ is_empty (erase 2 (2 ∷ 3 ∷ [])))
    × ((g' : GroupNode) (ys : List Ptr)
        → Disjoint (2 ∷ 3 ∷ []) ys
        → IsGroup two_linked g' ys
        → IsGroup (delete_channel 2 (node 7 2 2) two_linked).1 g' ys)
delete_channel-IsGroup_example =
    delete_channel-IsGroup 2 (node 7 2 2) two_linked (2 ∷ 3 ∷ []) refl pair-IsGroup

put_twice-leaks_example :
    push_group_msg 3 hello_msg
      (put 1 (node 7 2 2) two_linked).0
      (put 1 (node 8 0 0) (put 1 (node 7 2 2) two_linked).1).1
    ≡ some (
        on_members
          (push hello_msg)
          (1 ∷ [])
          (put 1 (node 8 0 0) (put 1 (node 7 2 2) two_linked).1).1)
put_twice-leaks_example =
    put_twice-leaks 1 (node 7 2 2) (node 8 0 0) two_linked (2 ∷ 3 ∷ []) [] (ground arith) refl refl
      (λ a i. ground arith) pair-IsGroup empty-IsGroup 3 hello_msg (omega arith)
