-- ===== src/Connect/Bucket/Join.antt =====
-- `PutChannel` refines the insertion of a member into its group.
use axis_chat_server.Prelude.{
  ℕ, ◌<◌, ◌≡◌, refl, ◌≢◌, Option, none, some, List, [], ◌∷◌, false, arith, lookup, insert,
  lookup-insert, elem, ◌==◌, ==_refl, ◌∙◌, sym, ap, subst,
}
use axis_chat_server.Connect.Channel.{Ptr, nil_ptr}
use axis_chat_server.Connect.GroupNode.{GroupNode, Heap, new_group_node, put}
use axis_chat_server.Connect.GroupNode.Chain.{
  IsGroup, Disjoint, IsGroup-frame, SameLinks, new-IsGroup,
}
use axis_chat_server.Connect.GroupNode.Put.{put-IsGroup, group_id-put}
use axis_chat_server.Connect.Bucket.{
  Bucket, Memory, no_group, node_of, put_channel, register, add_node, put_in_node,
}
use axis_chat_server.Connect.Bucket.Online.{
  Online, OnlineAt, OnlineAt-replaced, OnlineAt-replaced_ne, OnlineAt-frame, update_self,
  OnlineAt-made,
}

module _ (userid group_id : ℕ) (ch : Ptr) where
  -- the part of `PutChannel` behind the search for the node
  abbrev join : Ptr → Bucket → Memory → Bucket × Memory
  join n b m = let (b', m') = register userid ch b (add_node ch n m) in (b', put_in_node n ch m')

  abbrev marked : Ptr → Memory → Heap
  marked n m =
      (register userid ch
        (record {
          socket_map = [];
          group_node = [];
          routine_size = 0;
          routine_idx = 0;
          routine_num = 0;
          routines = [];
          status_routine_idx = 0;
          status_routine_num = 0;
          status_routines = [];
        })
        (add_node ch n m)).1.channels

  same_links : (n : Ptr) (m : Memory) (xs : List Ptr) → SameLinks m.channels (marked n m) xs
  same_links n m xs a i = (ground arith, ground arith)

  join-Online :
      (n : Ptr) (b : Bucket) (m : Memory) (xs : List Ptr)
      → ch ≢ nil_ptr
      → elem ch xs ≡ false
      → lookup group_id b.group_node ≡ some n
      → n < m.next_node
      → (m.nodes n).group_id ≡ group_id
      → IsGroup m.channels (m.nodes n) xs
      → Online (join n b m).0 (join n b m).1 group_id (ch ∷ xs)
        × ((other : ℕ) (ys : List Ptr)
            → other ≢ group_id
            → elem ch ys ≡ false
            → Disjoint xs ys
            → Online b m other ys
            → Online (join n b m).0 (join n b m).1 other ys)
  join-Online n b m xs nz out found below named is =
      let (joined, _, kept) =
        put-IsGroup ch (m.nodes n) (marked n m) xs nz out
          (IsGroup-frame m.channels (marked n m) (m.nodes n) xs (same_links n m xs) is) in
      let (g, h) = put ch (m.nodes n) (marked n m) in
      (
        record {
          at = rw found (
              OnlineAt-replaced n g h (record m { channels = marked n m }) group_id (ch ∷ xs) below
                (group_id-put ch (m.nodes n) (marked n m) ∙ named) joined);
        },
        λ other ys apart out_y disjoint on. record {
          at =
              OnlineAt-replaced_ne n g h (record m { channels = marked n m }) group_id
                (lookup other b.group_node) other ys named apart (λ k. kept k ys out_y disjoint)
                (OnlineAt-frame (marked n m) m (lookup other b.group_node) other ys
                  (same_links n m ys) on.at);
        },
      )

  lookup_new : (sockets : List (ℕ × Ptr)) → lookup userid (insert userid ch sockets) ≡ some ch
  lookup_new sockets = lookup-insert userid userid ch sockets ∙ rw ==_refl

  -- What holds once the node is there.
  record Ready (b : Bucket) (m : Memory) (xs : List Ptr) (r : Ptr × Bucket × Memory) : Type 0 where
    found : lookup group_id r.1.group_node ≡ some r.0
    below : r.0 < r.2.next_node
    named : (r.2.nodes r.0).group_id ≡ group_id
    is : IsGroup r.2.channels (r.2.nodes r.0) xs
    others :
        (other : ℕ) (ys : List Ptr)
        → other ≢ group_id
        → Online b m other ys
        → Online r.1 r.2 other ys

  node_of-Ready :
      (b : Bucket) (m : Memory) (xs : List Ptr) (o : Option Ptr)
      → lookup group_id b.group_node ≡ o
      → OnlineAt o m group_id xs
      → Ready b m xs (node_of o group_id b m)
  unfolding node_of new_group_node
  node_of-Ready b m xs (some n) found (below, named, is) = record {
    found = found;
    below = below;
    named = named;
    is = is;
    others = λ other ys apart on. on;
  }
  node_of-Ready b m xs none missing at = record {
    found = lookup-insert group_id group_id m.next_node b.group_node ∙ rw ==_refl;
    below = omega arith;
    named =
        ap (λ (g : GroupNode). g.group_id)
          (update_self m.nodes m.next_node (new_group_node group_id));
    is =
        subst (λ g. IsGroup m.channels g xs)
          (sym (update_self m.nodes m.next_node (new_group_node group_id)))
          (rw at (new-IsGroup m.channels group_id));
    others = λ other ys apart on.
        let same : lookup other (insert group_id m.next_node b.group_node)
            ≡ lookup other b.group_node =
          ground (arith, lookup-insert group_id other m.next_node b.group_node) in
        record {
          at = rw same (
              OnlineAt-made (new_group_node group_id) m (lookup other b.group_node) other ys on.at);
        };
  }

  -- `PutChannel`, for a group and a connection that is not among the group's online members, makes
  -- the connection the user's and puts it in front of those members, the group's node being made where
  -- there is none; every other group that neither has the connection nor shares a member with this
  -- one keeps its members.
  pub put_channel-Online :
      (b : Bucket) (m : Memory) (xs : List Ptr)
      → group_id ≢ no_group
      → ch ≢ nil_ptr
      → elem ch xs ≡ false
      → Online b m group_id xs
      → Online
          (put_channel userid group_id ch b m).0
          (put_channel userid group_id ch b m).1
          group_id
          (ch ∷ xs)
        × (lookup userid (put_channel userid group_id ch b m).0.socket_map ≡ some ch)
        × ((other : ℕ) (ys : List Ptr)
            → other ≢ group_id
            → elem ch ys ≡ false
            → Disjoint xs ys
            → Online b m other ys
            → Online
                (put_channel userid group_id ch b m).0
                (put_channel userid group_id ch b m).1
                other
                ys)
  unfolding put_channel
  put_channel-Online b m xs real nz out on =
      let grouped : (group_id == no_group) ≡ false = ground arith in
      let r = node_of-Ready b m xs (lookup group_id b.group_node) refl on.at in
      let (n, b', m') = node_of (lookup group_id b.group_node) group_id b m in
      let (joined, kept) = join-Online n b' m' xs nz out r.found r.below r.named r.is in
      rw grouped (
        joined,
        lookup_new b'.socket_map,
        λ other ys apart out_y disjoint on'.
            kept other ys apart out_y disjoint (r.others other ys apart on'),
      )
