-- ===== src/Connect/GroupNode/Chain.antt =====
-- What a group's list stands for: the addresses of its members, in order.
use axis_chat_server.Prelude.{
  ℕ, ◌≡◌, refl, ◌≢◌, ◌⊎◌, inl, inr, Bool-cases, true, false, List, [], ◌∷◌, arith, ◌==◌, elem,
  length,
}
use axis_chat_server.Prelude.Int.{pos}
use axis_chat_server.Connect.Channel.{Ptr, nil_ptr}
use axis_chat_server.Connect.GroupNode.{Heap, GroupNode, new_group_node}

-- From `p`, reached from `q`, the `next` fields lead through the distinct connections `xs` to
-- `nil`, and each `prev` field leads back.
abbrev pub Chain : Heap → Ptr → Ptr → List Ptr → Type 0
Chain h q p [] = p ≡ nil_ptr
Chain h q p (x ∷ xs) =
    (p ≡ x) × (x ≢ nil_ptr) × ((h x).prev ≡ q) × (elem x xs ≡ false) × Chain h x (h x).next xs

pub record IsGroup (h : Heap) (g : GroupNode) (xs : List Ptr) : Type 0 where
  pub chain : Chain h nil_ptr g.socket_head xs
  pub count : g.online_count ≡ pos (length xs)

-- `h'` has the links of `h` at the connections `xs`.
abbrev pub SameLinks : Heap → Heap → List Ptr → Type 0
SameLinks h h' xs =
    (a : Ptr) → elem a xs ≡ true → ((h' a).next ≡ (h a).next) × ((h' a).prev ≡ (h a).prev)

pub Chain-frame :
    (h h' : Heap) (q p : Ptr) (xs : List Ptr) → SameLinks h h' xs → Chain h q p xs → Chain h' q p xs
Chain-frame h h' q p [] same c = c
Chain-frame h h' q p (x ∷ xs) same (at, ne, back, out, rest) =
    let here = same x (ground arith) in
    let later = Chain-frame h h' x (h x).next xs (λ a i. same a (ground arith)) rest in
    (at, ne, rw here.1 back, out, rw here.0 later)

abbrev pub Disjoint : List Ptr → List Ptr → Type 0
Disjoint xs ys = (a : Ptr) → elem a ys ≡ true → elem a xs ≡ false

module _ (h : Heap) where
  pub Chain-ne_nil :
      (q p : Ptr) (xs : List Ptr) → Chain h q p xs → (a : Ptr) → elem a xs ≡ true → a ≢ nil_ptr
  Chain-ne_nil q p [] c a i = ground arith
  Chain-ne_nil q p (x ∷ xs) (at, ne, back, out, rest) a i =
      ground (arith, Chain-ne_nil x (h x).next xs rest a)

  pub nil-Chain : (q p : Ptr) (xs : List Ptr) → Chain h q p xs → elem nil_ptr xs ≡ false
  nil-Chain q p [] c = refl
  nil-Chain q p (x ∷ xs) (at, ne, back, out, rest) = ground (arith, nil-Chain x (h x).next xs rest)

  -- A chain begins with its first member, or at `nil`.
  pub Chain-head : (q p : Ptr) (xs : List Ptr) → Chain h q p xs → (p ≡ nil_ptr) ⊎ (elem p xs ≡ true)
  Chain-head q p [] c = inl c
  Chain-head q p (x ∷ xs) c = inr (ground arith)

  -- Behind a member stands a member, or `nil`.
  pub Chain-next :
      (q p : Ptr) (xs : List Ptr) (a : Ptr)
      → Chain h q p xs
      → elem a xs ≡ true
      → ((h a).next ≡ nil_ptr) ⊎ (elem (h a).next xs ≡ true)
  Chain-next q p [] a c i = ground arith
  Chain-next q p (x ∷ xs) a (at, ne, back, out, rest) i = elim (Bool-cases (x == a)) [
    | inl hit ↦ ground (arith, Chain-head x (h x).next xs rest)
    | inr miss ↦ ground (arith, Chain-next x (h x).next xs a rest)
  ]

  -- In front of a member stands a member, unless it is the first.
  pub Chain-prev :
      (q p : Ptr) (xs : List Ptr) (a : Ptr)
      → Chain h q p xs
      → elem a xs ≡ true
      → ((a ≡ p) × ((h a).prev ≡ q)) ⊎ ((a ≢ p) × (elem (h a).prev xs ≡ true))
  Chain-prev q p [] a c i = ground arith
  Chain-prev q p (x ∷ xs) a (at, ne, back, out, rest) i = elim (Bool-cases (x == a)) [
    | inl hit ↦ ground arith
    | inr miss ↦ ground (arith, Chain-prev x (h x).next xs a rest)
  ]

  pub Chain-next_ne :
      (q p : Ptr) (xs : List Ptr) (a : Ptr) → Chain h q p xs → elem a xs ≡ true → (h a).next ≢ a
  Chain-next_ne q p [] a c i = ground arith
  Chain-next_ne q p (x ∷ xs) a (at, ne, back, out, rest) i = elim (Bool-cases (x == a)) [
    | inl hit ↦ ground (arith, Chain-head x (h x).next xs rest)
    | inr miss ↦ Chain-next_ne x (h x).next xs a rest (ground arith)
  ]

  pub Chain-prev_ne :
      (q p : Ptr) (xs : List Ptr) (a : Ptr)
      → q ≢ a
      → Chain h q p xs
      → elem a xs ≡ true
      → (h a).prev ≢ a
  Chain-prev_ne q p [] a ne c i = ground arith
  Chain-prev_ne q p (x ∷ xs) a q_ne (at, ne, back, out, rest) i = elim (Bool-cases (x == a)) [
    | inl hit ↦ ground arith
    | inr miss ↦ Chain-prev_ne x (h x).next xs a (ground arith) rest (ground arith)
  ]

pub IsGroup-frame :
    (h h' : Heap) (g : GroupNode) (xs : List Ptr)
    → SameLinks h h' xs
    → IsGroup h g xs
    → IsGroup h' g xs
IsGroup-frame h h' g xs same is = record {
  chain = Chain-frame h h' nil_ptr g.socket_head xs same is.chain;
  count = is.count;
}

pub new-IsGroup : (h : Heap) (group_id : ℕ) → IsGroup h (new_group_node group_id) []
unfolding new_group_node
new-IsGroup h group_id = record { chain = refl; count = refl }
