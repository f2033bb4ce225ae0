-- ===== src/Connect/Bucket/Online.antt =====
-- The abstract view of a bucket: the online members of each group.
use axis_chat_server.Prelude.{
  ℕ, ◌+◌, ◌<◌, ◌≡◌, Option, none, some, List, [], ◌≢◌, arith, lookup, ◌==◌, ==_refl, false, subst,
  sym, ap, ◌∙◌,
}
use axis_chat_server.Connect.Channel.{Ptr}
use axis_chat_server.Connect.GroupNode.{Heap, GroupNode, update}
use axis_chat_server.Connect.GroupNode.Chain.{IsGroup, IsGroup-frame, SameLinks}
use axis_chat_server.Connect.Bucket.{Bucket, Memory}

abbrev pub OnlineAt : Option Ptr → Memory → ℕ → List Ptr → Type 0
OnlineAt none m group_id xs = xs ≡ []
OnlineAt (some n) m group_id xs =
    (n < m.next_node) × ((m.nodes n).group_id ≡ group_id) × IsGroup m.channels (m.nodes n) xs

-- The group's online members in this bucket are `xs`; a group without a node has none.
pub record Online (b : Bucket) (m : Memory) (group_id : ℕ) (xs : List Ptr) : Type 0 where
  pub at : OnlineAt (lookup group_id b.group_node) m group_id xs

-- The memory after an operation on the list of one node.
abbrev pub replaced : Ptr → GroupNode → Heap → Memory → Memory
replaced n g h m = record m { channels = h; nodes = update m.nodes n g }

pub update_self {ℓ} : {A : Type ℓ} (f : Ptr → A) (n : Ptr) (a : A) → update f n a n ≡ a
update_self f n a = rw ==_refl

pub update_ne {ℓ} : {A : Type ℓ} (f : Ptr → A) (n k : Ptr) (a : A) → k ≢ n → update f n a k ≡ f k
update_ne f n k a ne = let e : (k == n) ≡ false = ground arith in rw e

module _ (n : Ptr) (g : GroupNode) (h : Heap) (m : Memory) (group_id : ℕ) where
  pub OnlineAt-replaced :
      (xs : List Ptr)
      → n < m.next_node
      → g.group_id ≡ group_id
      → IsGroup h g xs
      → OnlineAt (some n) (replaced n g h m) group_id xs
  OnlineAt-replaced xs below named is =
      subst (λ k. (n < m.next_node) × (k.group_id ≡ group_id) × IsGroup h k xs)
        (sym (update_self m.nodes n g)) (below, named, is)

  -- Another group keeps its members if the operation keeps them in every list.
  pub OnlineAt-replaced_ne :
      (o : Option Ptr) (other : ℕ) (ys : List Ptr)
      → (m.nodes n).group_id ≡ group_id
      → other ≢ group_id
      → ((k : GroupNode) → IsGroup m.channels k ys → IsGroup h k ys)
      → OnlineAt o m other ys
      → OnlineAt o (replaced n g h m) other ys
  OnlineAt-replaced_ne none other ys named apart keep at = at
  OnlineAt-replaced_ne (some k) other ys named apart keep (below, its, is) =
      let ne : k ≢ n = λ e. apart (sym its ∙ ap (λ a. (m.nodes a).group_id) e ∙ named) in
      subst (λ t. (k < m.next_node) × (t.group_id ≡ other) × IsGroup h t ys)
        (sym (update_ne m.nodes n k g ne)) (below, its, keep (m.nodes k) is)

-- The abstract view reads the links alone.
pub OnlineAt-frame :
    (h : Heap) (m : Memory) (o : Option Ptr) (group_id : ℕ) (xs : List Ptr)
    → SameLinks m.channels h xs
    → OnlineAt o m group_id xs
    → OnlineAt o (record m { channels = h }) group_id xs
OnlineAt-frame h m none group_id xs same at = at
OnlineAt-frame h m (some n) group_id xs same (below, named, is) =
    (below, named, IsGroup-frame m.channels h (m.nodes n) xs same is)

-- A new node at a free address changes no group.
pub OnlineAt-made :
    (g : GroupNode) (m : Memory) (o : Option Ptr) (group_id : ℕ) (xs : List Ptr)
    → OnlineAt o m group_id xs
    → OnlineAt o
        (record m { nodes = update m.nodes m.next_node g; next_node = m.next_node + 1 })
        group_id
        xs
OnlineAt-made g m none group_id xs at = at
OnlineAt-made g m (some n) group_id xs (below, named, is) =
    subst (λ k. (n < m.next_node + 1) × (k.group_id ≡ group_id) × IsGroup m.channels k xs)
      (sym (update_ne m.nodes m.next_node n g (omega arith))) (omega arith, named, is)
