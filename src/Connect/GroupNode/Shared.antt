-- ===== src/Connect/GroupNode/Shared.antt =====
-- A connection has one `Next` and one `Prev`, and a user of several groups is put into the list of
-- each: what becomes of the first list.
use axis_chat_server.Prelude.{
  ℕ, suc, ◌<◌, ◌≡◌, refl, sym, ◌∙◌, ◌≢◌, false, some, List, ◌∷◌, elem, length,
}
use axis_chat_server.Prelude.Int.{pos}
use axis_chat_server.Connect.Channel.{Ptr, nil_ptr, Message, push}
use axis_chat_server.Connect.GroupNode.{Heap, GroupNode, put, push_group_msg}
use axis_chat_server.Connect.GroupNode.Chain.{IsGroup, Disjoint}
use axis_chat_server.Connect.GroupNode.Put.{put-IsGroup}
use axis_chat_server.Connect.GroupNode.Broadcast.{on_members, push_group_msg-members}

module _ (ch : Ptr) (first second : GroupNode) (h : Heap) where
  -- the second list, read from the first group's head
  first_list :
      (xs ys : List Ptr)
      → IsGroup (put ch first h).1 (put ch first h).0 (ch ∷ xs)
      → IsGroup (put ch second (put ch first h).1).1 (put ch second (put ch first h).1).0 (ch ∷ ys)
      → IsGroup
          (put ch second (put ch first h).1).1
          (record (put ch first h).0 { online_count = pos (suc (length ys)) })
          (ch ∷ ys)
  unfolding put
  first_list xs ys a b = record { chain = b.chain; count = refl }

  push_count :
      (fuel : ℕ) (msg : Message) (g : GroupNode) (k : Heap) (n : ℕ)
      → push_group_msg fuel msg (record g { online_count = pos n }) k ≡ push_group_msg fuel msg g k
  unfolding push_group_msg
  push_count fuel msg g k n = refl

  -- A connection that joins a first group with the members `xs` and then a second one with the
  -- members `ys`, apart from those, leaves the first group's list with the second group's members:
  -- a chat message to the first group is offered to the connection and to `ys`, and to none of `xs`.
  pub put_twice-leaks :
      (xs ys : List Ptr)
      → ch ≢ nil_ptr
      → elem ch xs ≡ false
      → elem ch ys ≡ false
      → Disjoint xs ys
      → IsGroup h first xs
      → IsGroup h second ys
      → (fuel : ℕ) (msg : Message) → suc (length ys) < fuel
      → push_group_msg fuel msg (put ch first h).0 (put ch second (put ch first h).1).1
        ≡ some (on_members (push msg) (ch ∷ ys) (put ch second (put ch first h).1).1)
  put_twice-leaks xs ys nz out_x out_y disjoint is_x is_y fuel msg enough =
      let (joined, _, kept) = put-IsGroup ch first h xs nz out_x is_x in
      let again =
        put-IsGroup ch second (put ch first h).1 ys nz out_y (kept second ys out_y disjoint is_y) in
      let listed = first_list xs ys joined again.0 in
      sym (
        push_count fuel msg (put ch first h).0 (put ch second (put ch first h).1).1
          (suc (length ys)))
      ∙ (push_group_msg-members (record (put ch first h).0 { online_count = pos (suc (length ys)) })
          (ch ∷ ys) (put ch second (put ch first h).1).1 fuel msg listed enough).0
