-- ===== src/Connect/Bucket/Tests.antt =====
-- A bucket with one group of two members.
use axis_chat_server.Prelude.{
  ℕ, ◌≡◌, refl, ◌≢◌, false, none, some, List, [], ◌∷◌, arith, elem, lookup,
}
use axis_chat_server.Connect.Channel.{Ptr, Payload, push}
use axis_chat_server.Connect.GroupNode.Chain.{Disjoint}
use axis_chat_server.Connect.GroupNode.Delete.{erase}
use axis_chat_server.Connect.GroupNode.Broadcast.{on_members}
use axis_chat_server.Connect.GroupNode.Tests.{two_linked, node, pair-IsGroup, hello_msg}
use axis_chat_server.Connect.Bucket.{Bucket, Memory, push_to_group, put_channel, delete_chanel}
use axis_chat_server.Connect.Bucket.Online.{Online}
use axis_chat_server.Connect.Bucket.Join.{put_channel-Online}
use axis_chat_server.Connect.Bucket.Leave.{delete_chanel-Online}
use axis_chat_server.Connect.Bucket.Queue.{HasQueues}
use axis_chat_server.Connect.Bucket.Deliver.{push_to_group-Online}

abbrev pub one_group : Bucket
one_group = record {
  socket_map = (20, 2) ∷ (30, 3) ∷ [];
  group_node = (7, 5) ∷ [];
  routine_size = 2;
  routine_idx = 0;
  routine_num = 1;
  routines = [] ∷ [];
  status_routine_idx = 0;
  status_routine_num = 1;
  status_routines = [] ∷ [];
}

abbrev pub memory : Memory
memory = record { channels = two_linked; nodes = λ p. node 7 2 2; next_node = 6 }

pub pair-Online : Online one_group memory 7 (2 ∷ 3 ∷ [])
pair-Online = record { at = (omega arith, refl, pair-IsGroup) }

pub one_group-HasQueues : HasQueues one_group
one_group-HasQueues = record { some_queue = omega arith; counted = refl }

abbrev info_hello : Payload
info_hello = record { op = 4; group_id = 7; body = [] }

put_channel-Online_example :
    Online
      (put_channel 10 7 1 one_group memory).0
      (put_channel 10 7 1 one_group memory).1
      7
      (1 ∷ 2 ∷ 3 ∷ [])
    × (lookup 10 (put_channel 10 7 1 one_group memory).0.socket_map ≡ some 1)
    × ((other : ℕ) (ys : List Ptr)
        → other ≢ 7
        → elem 1 ys ≡ false
        → Disjoint (2 ∷ 3 ∷ []) ys
        → Online one_group memory other ys
        → Online
            (put_channel 10 7 1 one_group memory).0
            (put_channel 10 7 1 one_group memory).1
            other
            ys)
put_channel-Online_example =
    put_channel-Online 10 7 1 one_group memory (2 ∷ 3 ∷ []) (ground arith) (ground arith) refl
      pair-Online

-- The older connection of the user 20 goes, and the newer one leaves the group.
delete_chanel-Online_example :
    Online
      (delete_chanel 4 one_group memory).0
      (delete_chanel 4 one_group memory).1
      7
      (erase 2 (2 ∷ 3 ∷ []))
    × (lookup 20 (delete_chanel 4 one_group memory).0.socket_map ≡ none)
    × ((other : ℕ) (ys : List Ptr)
        → other ≢ 7
        → Disjoint (2 ∷ 3 ∷ []) ys
        → Online one_group memory other ys
        → Online (delete_chanel 4 one_group memory).0 (delete_chanel 4 one_group memory).1 other ys)
delete_chanel-Online_example =
    delete_chanel-Online 4 2 5 7 one_group memory (2 ∷ 3 ∷ []) refl refl refl refl refl pair-Online

push_to_group-Online_example :
    push_to_group 3 hello_msg one_group memory
    ≡ some (record memory { channels = on_members (push hello_msg) (2 ∷ 3 ∷ []) two_linked })
push_to_group-Online_example =
    push_to_group-Online 3 hello_msg one_group memory (2 ∷ 3 ∷ []) refl pair-Online (omega arith)
