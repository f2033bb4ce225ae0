-- ===== src/Connect/Bucket/Leave.antt =====
-- `DeleteChanel` refines the removal of a member from its group.
use axis_chat_server.Prelude.{
  ℕ, ◌<◌, ◌≡◌, refl, ◌≢◌, Bool, true, false, ◌&&◌, none, some, List, [], ◌∷◌, arith, lookup, delete,
  lookup-delete, elem, ◌∙◌, sym, ap, subst, if◌then◌else◌,
}
use axis_chat_server.Connect.Channel.{Ptr}
use axis_chat_server.Connect.GroupNode.{GroupNode, Heap, delete_channel}
use axis_chat_server.Connect.GroupNode.Chain.{IsGroup, Disjoint}
use axis_chat_server.Connect.GroupNode.Delete.{
  erase, is_empty, delete_channel-IsGroup, group_id-delete,
}
use axis_chat_server.Connect.Bucket.{Bucket, Memory, leave_groups, delete_chanel}
use axis_chat_server.Connect.Bucket.Online.{
  Online, OnlineAt, replaced, OnlineAt-replaced, OnlineAt-replaced_ne,
}

eq_nil : (xs : List Ptr) → is_empty xs ≡ true → xs ≡ []
eq_nil [] e = refl
eq_nil (x ∷ xs) e = cc

module _ (n : Ptr) (group_id : ℕ) (b : Bucket) (m : Memory) where
  -- the bucket's groups after the last test of the loop
  abbrev swept : Bool → GroupNode → Bucket
  swept test g = if test then record b { group_node = delete g.group_id b.group_node } else b

  sweep-Online :
      (g : GroupNode) (h : Heap) (test : Bool) (xs : List Ptr)
      → lookup group_id b.group_node ≡ some n
      → n < m.next_node
      → g.group_id ≡ group_id
      → test ≡ is_empty xs
      → IsGroup h g xs
      → Online (swept test g) (replaced n g h m) group_id xs
  sweep-Online g h true xs found below named empty is =
      let gone : lookup group_id (delete g.group_id b.group_node) ≡ none =
        ground (arith, lookup-delete g.group_id group_id b.group_node) in
      record { at = rw gone (eq_nil xs (sym empty)) }
  sweep-Online g h false xs found below named empty is = record {
    at = rw found (OnlineAt-replaced n g h m group_id xs below named is);
  }

  sweep-Online_ne :
      (g : GroupNode) (h : Heap) (test : Bool) (other : ℕ) (ys : List Ptr)
      → other ≢ group_id
      → g.group_id ≡ group_id
      → (m.nodes n).group_id ≡ group_id
      → ((k : GroupNode) → IsGroup m.channels k ys → IsGroup h k ys)
      → Online b m other ys
      → Online (swept test g) (replaced n g h m) other ys
  sweep-Online_ne g h test other ys apart its named keep on =
      let moved =
        OnlineAt-replaced_ne n g h m group_id (lookup other b.group_node) other ys named apart keep
          on.at in
      let same : lookup other (swept test g).group_node ≡ lookup other b.group_node =
        ground (arith, lookup-delete g.group_id other b.group_node) in
      record { at = rw same moved }

module _ (ch c n : Ptr) (group_id : ℕ) (b : Bucket) (m : Memory) where
  abbrev forgotten : Bucket
  forgotten = record b { socket_map = delete (m.channels c).userid b.socket_map }

  delete_chanel-one :
      lookup (m.channels ch).userid b.socket_map ≡ some c
      → (m.channels c).group_nodes ≡ n ∷ []
      → delete_chanel ch b m ≡ leave_groups c (n ∷ []) forgotten m
  unfolding delete_chanel
  delete_chanel-one registered nodes =
      rw (registered, delete_chanel) (ap (λ ns. leave_groups c ns forgotten m) nodes)

  -- what the loop does for one node
  leave_one :
      (xs : List Ptr)
      → lookup group_id b.group_node ≡ some n
      → elem c xs ≡ true
      → Online b m group_id xs
      → Online
          (leave_groups c (n ∷ []) forgotten m).0
          (leave_groups c (n ∷ []) forgotten m).1
          group_id
          (erase c xs)
        × ((leave_groups c (n ∷ []) forgotten m).0.socket_map ≡ forgotten.socket_map)
        × ((other : ℕ) (ys : List Ptr)
            → other ≢ group_id
            → Disjoint xs ys
            → Online b m other ys
            → Online
                (leave_groups c (n ∷ []) forgotten m).0
                (leave_groups c (n ∷ []) forgotten m).1
                other
                ys)
  unfolding leave_groups
  leave_one xs found i on =
      let at : OnlineAt (some n) m group_id xs =
        subst (λ o. OnlineAt o m group_id xs) found on.at in
      let (g, h, emptied) = delete_channel c (m.nodes n) m.channels in
      let (left, answer, dropped, kept) =
        delete_channel-IsGroup c (m.nodes n) m.channels xs i at.2 in
      let named = group_id-delete c (m.nodes n) m.channels ∙ at.1 in
      let test : (emptied && g.drop) ≡ is_empty (erase c xs) = ground arith in
      (
        sweep-Online n group_id forgotten m g h (emptied && g.drop) (erase c xs) found at.0 named
            test left,
        ground arith,
        λ other ys apart disjoint on'.
            sweep-Online_ne n group_id forgotten m g h (emptied && g.drop) other ys apart named at.1
              (λ k. kept k ys disjoint) (record { at = on'.at }),
      )

  -- `DeleteChanel`, for a connection whose user's registered connection `c` stands in the list of one
  -- group, takes `c` out of that group's online members and forgets the user; every other group that
  -- shares no member with this one keeps its members.
  pub delete_chanel-Online :
      (xs : List Ptr)
      → lookup (m.channels ch).userid b.socket_map ≡ some c
      → (m.channels c).userid ≡ (m.channels ch).userid
      → (m.channels c).group_nodes ≡ n ∷ []
      → lookup group_id b.group_node ≡ some n
      → elem c xs ≡ true
      → Online b m group_id xs
      → Online (delete_chanel ch b m).0 (delete_chanel ch b m).1 group_id (erase c xs)
        × (lookup (m.channels ch).userid (delete_chanel ch b m).0.socket_map ≡ none)
        × ((other : ℕ) (ys : List Ptr)
            → other ≢ group_id
            → Disjoint xs ys
            → Online b m other ys
            → Online (delete_chanel ch b m).0 (delete_chanel ch b m).1 other ys)
  delete_chanel-Online xs registered own nodes found i on =
      rw (delete_chanel-one registered nodes) (
        let (left, sockets, kept) = leave_one xs found i on in
        (
          left,
          ground (arith, lookup-delete (m.channels c).userid (m.channels ch).userid b.socket_map),
          kept,
        ))
