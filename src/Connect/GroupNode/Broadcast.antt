-- ===== src/Connect/GroupNode/Broadcast.antt =====
-- `PushGroupMsg` and `PushGroupStatusMsg` reach each member once and nobody else.
use axis_chat_server.Prelude.{
  ℕ, zero, suc, ◌<◌, ◌≡◌, sym, subst, ap, fun_ext, false, some, List, [], ◌∷◌, arith, ◌==◌,
  if◌then◌else◌, elem, length,
}
use axis_chat_server.Connect.Channel.{
  Ptr, nil_ptr, Channel, Message, Payload, push, push_status, next-push, next-push_status,
  prev-push, prev-push_status,
}
use axis_chat_server.Connect.GroupNode.{
  Heap, GroupNode, update, walk, push_group_msg, push_group_status_msg,
}
use axis_chat_server.Connect.GroupNode.Chain.{Chain, IsGroup, Chain-frame}

-- The memory after an action on exactly the connections `xs`.
abbrev pub on_members : (Channel → Channel) → List Ptr → Heap → Heap
on_members act xs h a = if elem a xs then act (h a) else h a

module _ (act : Channel → Channel) (keep_next : (c : Channel) → (act c).next ≡ c.next) where
  walk_lem :
      (fuel : ℕ) (q p : Ptr) (xs : List Ptr) (h : Heap)
      → Chain h q p xs
      → length xs < fuel
      → walk fuel act p h ≡ some (on_members act xs h)
  unfolding walk
  walk_lem zero q p xs h c enough = absurd (omega arith)
  walk_lem (suc fuel) q p [] h c enough = rw c
  walk_lem (suc fuel) q p (x ∷ xs) h (at, ne, back, out, rest) enough =
      let h' = update h x (act (h x)) in
      let moved = Chain-frame h h' x (h x).next xs (λ a i. (ground arith, ground arith)) rest in
      let later =
        walk_lem fuel x (act (h x)).next xs h'
          (subst (λ n. Chain h' x n xs) (sym (keep_next (h x))) moved) (omega arith) in
      rw at (
        let not_nil : (x == nil_ptr) ≡ false = ground arith in
        rw (not_nil, later) (ap some (fun_ext λ a. ground arith)))

  on_members-IsGroup :
      ((c : Channel) → (act c).prev ≡ c.prev)
      → (g : GroupNode) (xs ys : List Ptr) (h : Heap) → IsGroup h g ys
      → IsGroup (on_members act xs h) g ys
  on_members-IsGroup keep_prev g xs ys h is = record {
    chain =
        Chain-frame h (on_members act xs h) nil_ptr g.socket_head ys
          (λ a i. (ground (arith, keep_next (h a)), ground (arith, keep_prev (h a)))) is.chain;
    count = is.count;
  }

module _ (g : GroupNode) (xs : List Ptr) (h : Heap) (fuel : ℕ) where
  -- A chat message to a group is offered to each member's buffer once and to no other connection,
  -- and the loop ends; every list keeps its members.
  pub push_group_msg-members :
      (msg : Message)
      → IsGroup h g xs
      → length xs < fuel
      → (push_group_msg fuel msg g h ≡ some (on_members (push msg) xs h))
        × ((g' : GroupNode) (ys : List Ptr)
            → IsGroup h g' ys
            → IsGroup (on_members (push msg) xs h) g' ys)
  unfolding push_group_msg
  push_group_msg-members msg is enough = (
    walk_lem (push msg) (next-push msg) fuel nil_ptr g.socket_head xs h is.chain enough,
    λ g' ys. on_members-IsGroup (push msg) (next-push msg) (prev-push msg) g' xs ys h,
  )

  -- A status message to a group is offered to each member's status buffer once and to no other
  -- connection, and the loop ends; every list keeps its members.
  pub push_group_status_msg-members :
      (msg : Payload)
      → IsGroup h g xs
      → length xs < fuel
      → (push_group_status_msg fuel msg g h ≡ some (on_members (push_status msg) xs h))
        × ((g' : GroupNode) (ys : List Ptr)
            → IsGroup h g' ys
            → IsGroup (on_members (push_status msg) xs h) g' ys)
  unfolding push_group_status_msg
  push_group_status_msg-members msg is enough = (
    walk_lem (push_status msg) (next-push_status msg) fuel nil_ptr g.socket_head xs h is.chain
        enough,
    λ g' ys.
        on_members-IsGroup (push_status msg) (next-push_status msg) (prev-push_status msg) g' xs ys
          h,
  )
