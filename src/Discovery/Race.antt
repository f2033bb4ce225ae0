-- ===== src/Discovery/Race.antt =====
-- A removal between the two halves of GetServiceByServerId.
use axis_chat_server.Prelude.{
  ◌≡◌, refl, true, false, inl, inr, Option-cases, none, some, is_some, [], arith, Text, =text_refl,
  length, ap, sym, ◌∙◌, ◌==◌, get_or, leb,
}
use axis_chat_server.Discovery.{
  ServiceDiscovery, write, fine, crashed, index_in_slice, cut, instances, del_at, pick, advance,
}
use axis_chat_server.Discovery.Aligned.{has, index-has, index-lt, length-cut}
use axis_chat_server.Discovery.Update.{IsAligned}

pick-one :
    {I : Type 0} (id : Text) (s : ServiceDiscovery I)
    → length (instances s id) ≡ 1
    → (pick id s).1 ≡ none
unfolding pick
pick-one id s one = elim (Option-cases (s.server_list id)) [
  | inl e ↦ absurd (omega (arith, one, ap (λ o. length (get_or [] o)) e))
  | inr (l, e) ↦
      let n : length l ≡ 1 = sym (ap (λ o. length (get_or [] o)) e) ∙ one in
      let t : (length l == 0) ≡ false = ground arith in rw (pick, e, t) refl
]

advance-empty :
    {I : Type 0} (id : Text) (s : ServiceDiscovery I)
    → length (instances s id) ≡ 0
    → advance id s ≡ crashed
unfolding advance
advance-empty id s e = rw (advance, e) refl

-- On aligned lists with one instance under a server id, a GetServiceByServerId that has read the
-- lists before DelServiceList removes the key of that instance has chosen without an error, and
-- panics in its second half, on a remainder by zero.
pub del_between-crashed :
    {I : Type 0} (id key : Text) (s : ServiceDiscovery I)
    → IsAligned s
    → length (instances s id) ≡ 1
    → has key (s.server_key id) ≡ true
    → ((pick id s).1 ≡ none)
      × (s' : ServiceDiscovery I) × (del_at id key s ≡ fine s')
      × (advance id s' ≡ crashed)
unfolding del_at
del_between-crashed id key s a one present =
    elim (Option-cases (index_in_slice key (s.server_key id))) [
      | inl e ↦ absurd (ground (arith, index-has key (s.server_key id), ap is_some e))
      | inr (idx, e) ↦
          let low = index-lt key (s.server_key id) idx e in
          let t : leb (length (instances s id)) idx ≡ false = ground (arith, (a id).0) in
          let shorter = length-cut (instances s id) idx (omega (arith, (a id).0)) in
          let s' : ServiceDiscovery _ = record s {
            server_list = write s.server_list id (some (cut idx (instances s id)));
            server_key = write s.server_key id (cut idx (s.server_key id));
          } in
          (
            pick-one id s one,
            s',
            rw (del_at, e, t) refl,
            advance-empty id s' (rw (=text_refl id) (omega (arith, shorter))),
          )
    ]
