-- ===== src/Connect/GroupNode/Put.antt =====
-- `Put` adds a connection that stands in no list.
use axis_chat_server.Prelude.{◌≡◌, refl, ◌∙◌, ◌≢◌, false, List, [], ◌∷◌, arith, elem}
use axis_chat_server.Connect.Channel.{Ptr, nil_ptr}
use axis_chat_server.Connect.GroupNode.{Heap, GroupNode, put}
use axis_chat_server.Connect.GroupNode.Chain.{Chain, IsGroup, Disjoint, Chain-frame, Chain-ne_nil}
use axis_chat_server.Prelude.Int.{incr}

module _ (ch : Ptr) (g : GroupNode) (h : Heap) where
  next-put_self : ((put ch g h).1 ch).next ≡ g.socket_head
  unfolding put
  next-put_self = ground arith

  prev-put_self : ((put ch g h).1 ch).prev ≡ nil_ptr
  unfolding put
  prev-put_self = ground arith

  pub next-put_ne : (a : Ptr) → a ≢ ch → ((put ch g h).1 a).next ≡ (h a).next
  unfolding put
  next-put_ne a ne = ground arith

  pub prev-put_ne : (a : Ptr) → a ≢ ch → a ≢ g.socket_head → ((put ch g h).1 a).prev ≡ (h a).prev
  unfolding put
  prev-put_ne a ne apart = ground arith

  prev-put_head :
      g.socket_head ≢ nil_ptr → g.socket_head ≢ ch → ((put ch g h).1 g.socket_head).prev ≡ ch
  unfolding put
  prev-put_head nz ne = ground arith

  drop-put : (put ch g h).0.drop ≡ false
  unfolding put
  drop-put = refl

  count-put : (put ch g h).0.online_count ≡ incr g.online_count
  unfolding put
  count-put = refl

  head-put :
      (xs : List Ptr)
      → Chain (put ch g h).1 nil_ptr ch xs
      → Chain (put ch g h).1 nil_ptr (put ch g h).0.socket_head xs
  unfolding put
  head-put xs c = c

  -- the head's `prev` is written, and the head is a member or `nil`
  put-prev_apart :
      (a : Ptr)
      → a ≢ ch
      → (xs : List Ptr) → Chain h nil_ptr g.socket_head xs
      → elem a xs ≡ false
      → a ≢ nil_ptr
      → ((put ch g h).1 a).prev ≡ (h a).prev
  put-prev_apart a ne [] c out nz = prev-put_ne a ne (ground arith)
  put-prev_apart a ne (x ∷ xs) c out nz = prev-put_ne a ne (ground arith)

  put-Chain :
      (p : Ptr) (xs : List Ptr)
      → g.socket_head ≡ p
      → ch ≢ nil_ptr
      → elem ch xs ≡ false
      → Chain h nil_ptr p xs
      → Chain (put ch g h).1 nil_ptr ch (ch ∷ xs)
  put-Chain p [] is ne out c = (refl, ne, prev-put_self, refl, next-put_self ∙ is ∙ c)
  put-Chain p (x ∷ xs) is ne out (at, nz, back, fresh, rest) =
      let x_ne : x ≢ ch = ground arith in
      let later =
        Chain-frame h (put ch g h).1 x (h x).next xs
          (λ a i. (next-put_ne a (ground arith), prev-put_ne a (ground arith) (ground arith)))
          rest in
      (
        refl,
        ne,
        prev-put_self,
        out,
        (
          next-put_self ∙ is ∙ at,
          nz,
          ground (arith, prev-put_head),
          fresh,
          rw (next-put_ne x x_ne) later,
        ),
      )

  -- `Put` puts a connection that is not in the group's list in front of the members and counts it.
  -- A group that shares no member with this one, nor has the new connection, keeps its members.
  pub put-IsGroup :
      (xs : List Ptr)
      → ch ≢ nil_ptr
      → elem ch xs ≡ false
      → IsGroup h g xs
      → IsGroup (put ch g h).1 (put ch g h).0 (ch ∷ xs)
        × ((put ch g h).0.drop ≡ false)
        × ((g' : GroupNode) (ys : List Ptr)
            → elem ch ys ≡ false
            → Disjoint xs ys
            → IsGroup h g' ys
            → IsGroup (put ch g h).1 g' ys)
  put-IsGroup xs ne out is = (
    record {
      chain = head-put (ch ∷ xs) (put-Chain g.socket_head xs refl ne out is.chain);
      count = ground (arith, count-put, is.count);
    },
    drop-put,
    λ g' ys apart disjoint other. record {
      chain =
          Chain-frame h (put ch g h).1 nil_ptr g'.socket_head ys
            (λ a i. (
              next-put_ne a (ground arith),
              put-prev_apart a (ground arith) xs is.chain (disjoint a i)
                  (Chain-ne_nil h nil_ptr g'.socket_head ys other.chain a i),
            ))
            other.chain;
      count = other.count;
    },
  )

  pub group_id-put : (put ch g h).0.group_id ≡ g.group_id
  unfolding put
  group_id-put = refl
