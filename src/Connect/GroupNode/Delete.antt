-- ===== src/Connect/GroupNode/Delete.antt =====
-- `DeleteChannel` removes a member, wherever it stands.
use axis_chat_server.Prelude.{
  suc, ◌≡◌, refl, sym, ap, ◌∙◌, ◌≢◌, Bool, Bool-cases, true, false, inl, inr, List, [], ◌∷◌, arith,
  ◌==◌, if◌then◌else◌, elem, length,
}
use axis_chat_server.Prelude.Int.{pos, decr, at_most_zero}
use axis_chat_server.Connect.Channel.{Ptr, nil_ptr}
use axis_chat_server.Connect.GroupNode.{Heap, GroupNode, unlink, delete_channel}
use axis_chat_server.Connect.GroupNode.Chain.{
  Chain, IsGroup, Disjoint, Chain-frame, Chain-ne_nil, Chain-next, Chain-prev, nil-Chain,
  Chain-next_ne, Chain-prev_ne,
}

-- The list without one connection.
abbrev pub erase : Ptr → List Ptr → List Ptr
erase a [] = []
erase a (x ∷ xs) = if x == a then xs else x ∷ erase a xs

abbrev pub is_empty : List Ptr → Bool
is_empty [] = true
is_empty (x ∷ xs) = false

length-erase : (a : Ptr) (xs : List Ptr) → elem a xs ≡ true → suc (length (erase a xs)) ≡ length xs
length-erase a [] i = ground arith
length-erase a (x ∷ xs) i = elim (Bool-cases (x == a)) [
  | inl hit ↦ rw hit
  | inr miss ↦ rw miss (ground (arith, length-erase a xs))
]

elem-erase_ne : (a b : Ptr) (xs : List Ptr) → elem b xs ≡ false → elem b (erase a xs) ≡ false
elem-erase_ne a b [] out = refl
elem-erase_ne a b (x ∷ xs) out = ground (arith, elem-erase_ne a b xs)

module _ (ch : Ptr) (g : GroupNode) (h : Heap) (nz : ch ≢ nil_ptr) (next_ne : (h ch).next ≢ ch)
    (prev_ne : (h ch).prev ≢ ch) where
  next-unlink :
      (a : Ptr)
      → a ≢ nil_ptr
      → ((unlink ch g h).1 a).next ≡ (if a == (h ch).prev then (h ch).next else (h a).next)
  unfolding unlink
  next-unlink a ne = ground arith

  prev-unlink :
      (a : Ptr)
      → a ≢ nil_ptr
      → ((unlink ch g h).1 a).prev ≡ (if a == (h ch).next then (h ch).prev else (h a).prev)
  unfolding unlink
  prev-unlink a ne = ground arith

  head-unlink :
      (unlink ch g h).0.socket_head
      ≡ (if (h ch).prev == nil_ptr then (h ch).next else g.socket_head)
  unfolding unlink
  head-unlink = ground arith

  count-unlink : (unlink ch g h).0.online_count ≡ g.online_count
  unfolding unlink
  count-unlink = ground arith

  -- the links of all but the two neighbours stay
  unlink_frame :
      (q p : Ptr) (xs : List Ptr)
      → elem (h ch).prev xs ≡ false
      → elem (h ch).next xs ≡ false
      → Chain h q p xs
      → Chain (unlink ch g h).1 q p xs
  unlink_frame q p xs out_prev out_next c =
      Chain-frame h (unlink ch g h).1 q p xs
        (λ a i.
          let a_nz = Chain-ne_nil h q p xs c a i in
          (ground (arith, next-unlink a), ground (arith, prev-unlink a)))
        c

  erase-Chain_here :
      (q : Ptr) (xs : List Ptr)
      → elem q xs ≡ false
      → (h ch).prev ≡ q
      → Chain h ch (h ch).next xs
      → Chain (unlink ch g h).1 q (h ch).next xs
  erase-Chain_here q [] out back c = c
  erase-Chain_here q (y ∷ ys) out back (at, ne, _, fresh, rest) =
      let later = unlink_frame y (h y).next ys (ground arith) (ground arith) rest in
      (
        at,
        ne,
        ground (arith, prev-unlink y),
        fresh,
        rw (let e : ((unlink ch g h).1 y).next ≡ (h y).next = ground (arith, next-unlink y) in e)
            later,
      )

  next-unlink_before :
      (x : Ptr) (xs : List Ptr)
      → x ≢ nil_ptr
      → elem x xs ≡ false
      → elem ch xs ≡ true
      → Chain h x (h x).next xs
      → ((unlink ch g h).1 x).next ≡ (if (h x).next == ch then (h ch).next else (h x).next)
  next-unlink_before x xs ne fresh i rest =
      ground (arith, next-unlink x, Chain-prev h x (h x).next xs ch rest i)

  erase-Chain :
      (q p : Ptr) (xs : List Ptr)
      → elem q xs ≡ false
      → elem ch xs ≡ true
      → Chain h q p xs
      → Chain (unlink ch g h).1 q (if p == ch then (h ch).next else p) (erase ch xs)
  erase-Chain q p [] out i c = ground arith
  erase-Chain q p (x ∷ xs) out i (at, ne, back, fresh, rest) = elim (Bool-cases (x == ch)) [
    | inl hit ↦
        let e : x ≡ ch = ground arith in
        rw (at, hit) (erase-Chain_here q xs (ground arith) (rw (← e) back) (rw e at rest))
    | inr miss ↦
        let i' : elem ch xs ≡ true = ground arith in
        let later = erase-Chain x (h x).next xs fresh i' rest in
        rw (at, miss)
          (
            refl,
            ne,
            ground (arith, prev-unlink x, Chain-next h x (h x).next xs ch rest i'),
            elem-erase_ne ch x xs fresh,
            rw (next-unlink_before x xs ne fresh i' rest) later,
          )
  ]

at_most_zero-length : (xs : List Ptr) → at_most_zero (pos (length xs)) ≡ is_empty xs
at_most_zero-length [] = refl
at_most_zero-length (x ∷ xs) = refl

module _ (ch : Ptr) (g : GroupNode) (h : Heap) where
  Chain-delete :
      (xs : List Ptr)
      → Chain (unlink ch g h).1 nil_ptr (unlink ch g h).0.socket_head xs
      → Chain (delete_channel ch g h).1 nil_ptr (delete_channel ch g h).0.socket_head xs
  unfolding delete_channel
  Chain-delete xs c = c

  frame-delete :
      (p : Ptr) (xs : List Ptr)
      → Chain (unlink ch g h).1 nil_ptr p xs
      → Chain (delete_channel ch g h).1 nil_ptr p xs
  unfolding delete_channel
  frame-delete p xs c = c

  count-delete : (delete_channel ch g h).0.online_count ≡ decr (unlink ch g h).0.online_count
  unfolding delete_channel
  count-delete = refl

  answer-delete :
      ((delete_channel ch g h).2 ≡ at_most_zero (decr (unlink ch g h).0.online_count))
      × ((delete_channel ch g h).0.drop ≡ (delete_channel ch g h).2)
  unfolding delete_channel
  answer-delete = (refl, refl)

  -- `DeleteChannel` takes a member out of the list, wherever it stands, and answers whether the
  -- list is now empty; its `drop` field says the same. A group that shares no member with this one
  -- keeps its members.
  pub delete_channel-IsGroup :
      (xs : List Ptr)
      → elem ch xs ≡ true
      → IsGroup h g xs
      → IsGroup (delete_channel ch g h).1 (delete_channel ch g h).0 (erase ch xs)
        × ((delete_channel ch g h).2 ≡ is_empty (erase ch xs))
        × ((delete_channel ch g h).0.drop ≡ is_empty (erase ch xs))
        × ((g' : GroupNode) (ys : List Ptr)
            → Disjoint xs ys
            → IsGroup h g' ys
            → IsGroup (delete_channel ch g h).1 g' ys)
  delete_channel-IsGroup xs i is =
      let nz = Chain-ne_nil h nil_ptr g.socket_head xs is.chain ch i in
      let nn = Chain-next_ne h nil_ptr g.socket_head xs ch is.chain i in
      let pn = Chain-prev_ne h nil_ptr g.socket_head xs ch (λ e. nz (sym e)) is.chain i in
      let count : decr (unlink ch g h).0.online_count ≡ pos (length (erase ch xs)) =
        rw (count-unlink ch g h nz nn pn, is.count, ← length-erase ch xs i) in
      let before = Chain-prev h nil_ptr g.socket_head xs ch is.chain i in
      let after = Chain-next h nil_ptr g.socket_head xs ch is.chain i in
      let no_nil = nil-Chain h nil_ptr g.socket_head xs is.chain in
      let head : (unlink ch g h).0.socket_head
          ≡ (if g.socket_head == ch then (h ch).next else g.socket_head) =
        head-unlink ch g h nz nn pn
        ∙ ground (arith, Chain-ne_nil h nil_ptr g.socket_head xs is.chain (h ch).prev) in
      let (answer, dropped) = answer-delete in
      let verdict = answer ∙ ap at_most_zero count ∙ at_most_zero-length (erase ch xs) in
      (
        record {
          chain =
              Chain-delete (erase ch xs)
                (rw head (erase-Chain ch g h nz nn pn nil_ptr g.socket_head xs no_nil i is.chain));
          count = count-delete ∙ count;
        },
        verdict,
        dropped ∙ verdict,
        λ g' ys disjoint other.
            let no_nil' = nil-Chain h nil_ptr g'.socket_head ys other.chain in
            record {
              chain = frame-delete g'.socket_head ys (
                  unlink_frame ch g h nz nn pn nil_ptr g'.socket_head ys
                    (ground (arith, disjoint (h ch).prev)) (ground (arith, disjoint (h ch).next))
                    other.chain);
              count = other.count;
            },
      )

  pub group_id-delete : (delete_channel ch g h).0.group_id ≡ g.group_id
  unfolding delete_channel unlink
  group_id-delete = ground arith
