-- ===== src/Connect/Bucket/Fields.antt =====
-- What joining and leaving groups do to the fields of a connection.
use axis_chat_server.Prelude.{
  ℕ, ◌≡◌, refl, ◌≢◌, false, inl, inr, Option, Option-cases, none, some, List, [], ◌∷◌, ◌++◌, arith,
  lookup, lookup-insert, delete, ◌==◌, ==_refl, ap, ◌∙◌,
}
use axis_chat_server.Connect.Channel.{Ptr}
use axis_chat_server.Connect.GroupNode.{Heap, GroupNode, put, unlink, delete_channel}
use axis_chat_server.Connect.Bucket.{
  Bucket, Memory, no_group, node_of, put_channel, register, add_node, leave_groups, delete_chanel,
}

module _ (ch : Ptr) (g : GroupNode) (h : Heap) (a : Ptr) where
  userid-put : ((put ch g h).1 a).userid ≡ (h a).userid
  unfolding put
  userid-put = ground arith

  group_nodes-put : ((put ch g h).1 a).group_nodes ≡ (h a).group_nodes
  unfolding put
  group_nodes-put = ground arith

  userid-unlink : ((unlink ch g h).1 a).userid ≡ (h a).userid
  unfolding unlink
  userid-unlink = ground arith

  userid-delete : ((delete_channel ch g h).1 a).userid ≡ (h a).userid
  unfolding delete_channel
  userid-delete = userid-unlink

-- The fields of a connection that PutChannel has put into a group.
pub record Joined (userid group_id : ℕ) (ch : Ptr) (m : Memory) (r : Bucket × Memory) : Type 0 where
  pub node : Ptr
  pub found : lookup group_id r.0.group_node ≡ some node
  pub owned : (r.1.channels ch).userid ≡ userid
  pub nodes : (r.1.channels ch).group_nodes ≡ (m.channels ch).group_nodes ++ node ∷ []

module _ (userid group_id : ℕ) (ch : Ptr) where
  node_of-found :
      (o : Option Ptr) (b : Bucket) (m : Memory)
      → lookup group_id b.group_node ≡ o
      → (lookup group_id (node_of o group_id b m).1.group_node ≡ some (node_of o group_id b m).0)
        × ((node_of o group_id b m).2.channels ≡ m.channels)
  unfolding node_of
  node_of-found (some n) b m e = (e, refl)
  node_of-found none b m e =
      (lookup-insert group_id group_id m.next_node b.group_node ∙ rw ==_refl, refl)

  pub put_channel-Joined :
      (b : Bucket) (m : Memory)
      → group_id ≢ no_group
      → Joined userid group_id ch m (put_channel userid group_id ch b m)
  unfolding put_channel
  put_channel-Joined b m real =
      let grouped : (group_id == no_group) ≡ false = ground arith in
      let o = lookup group_id b.group_node in
      let (n, b', m') = node_of o group_id b m in
      let (found, same) = node_of-found o b m refl in
      let (b'', m'') = register userid ch b' (add_node ch n m') in
      let owned : (m''.channels ch).userid ≡ userid = rw ==_refl refl in
      let listed : (m''.channels ch).group_nodes ≡ (m'.channels ch).group_nodes ++ n ∷ [] =
        rw ==_refl refl in
      rw grouped record {
        node = n;
        found = found;
        owned = userid-put ch (m''.nodes n) m''.channels ch ∙ owned;
        nodes =
            group_nodes-put ch (m''.nodes n) m''.channels ch
            ∙ listed
            ∙ ap (λ (h : Heap). (h ch).group_nodes ++ n ∷ []) same;
      }

leave_groups-userid :
    (c a : Ptr) (ns : List Ptr) (b : Bucket) (m : Memory)
    → ((leave_groups c ns b m).1.channels a).userid ≡ (m.channels a).userid
unfolding leave_groups
leave_groups-userid c a [] b m = refl
leave_groups-userid c a (n ∷ ns) b m =
    leave_groups-userid c a ns _ _ ∙ userid-delete c (m.nodes n) m.channels a

-- A connection keeps its user when a connection leaves its groups.
pub delete_chanel-userid :
    (ch a : Ptr) (b : Bucket) (m : Memory)
    → ((delete_chanel ch b m).1.channels a).userid ≡ (m.channels a).userid
unfolding delete_chanel
delete_chanel-userid ch a b m = elim (Option-cases (lookup (m.channels ch).userid b.socket_map)) [
  | inl nobody ↦ rw (delete_chanel, nobody) refl
  | inr (c, here) ↦
      rw (delete_chanel, here)
        (leave_groups-userid c a (m.channels c).group_nodes
          (record b { socket_map = delete (m.channels c).userid b.socket_map }) m)
]
