-- ===== src/Discovery/RoundRobin.antt =====
-- GetServiceByServerId, called again and again: the instances of a server id in turn.
use axis_chat_server.Prelude.{
  ℕ, zero, suc, ◌+◌, ◌%◌, ◌<◌, ◌≡◌, refl, false, none, some, List, arith, Text, =text_refl, length,
  get_elem?, ◌==◌, ap, subst, ◌∙◌,
}
use axis_chat_server.Discovery.{
  ServiceDiscovery, write, Outcome, fine, crashed, instances, pick, advance,
  get_service_by_server_id,
}
use native.Mathlib.Nat.{mod-add-mod}

module _ {I : Type 0} (id : Text) where
  -- The state after `n` calls.
  abbrev pub rounds : ℕ → ServiceDiscovery I → Outcome (ServiceDiscovery I)
  rounds zero s = fine s
  rounds (suc n) s = elim (get_service_by_server_id id s) [
    | crashed ↦ crashed
    | fine (r, s') ↦ rounds n s'
  ]

  abbrev moved : ServiceDiscovery I → ServiceDiscovery I
  moved s = record s {
    index_map = write s.index_map id ((s.index_map id + 1) % length (instances s id));
  }

  pick-some :
      (s : ServiceDiscovery I) (l : List I)
      → s.server_list id ≡ some l
      → 0 < length l
      → pick id s ≡ (get_elem? l (s.index_map id % length l), none)
  unfolding pick
  pick-some s l e h = let t : (length l == 0) ≡ false = ground arith in rw (pick, e, t) refl

  advance-some :
      (s : ServiceDiscovery I) (l : List I)
      → s.server_list id ≡ some l
      → 0 < length l
      → advance id s ≡ fine (moved s)
  unfolding advance
  advance-some s l e h = let t : (length l == 0) ≡ false = ground arith in rw (advance, e, t) refl

  get-moved :
      (s : ServiceDiscovery I) (l : List I)
      → s.server_list id ≡ some l
      → 0 < length l
      → get_service_by_server_id id s
        ≡ fine ((get_elem? l (s.index_map id % length l), none), moved s)
  unfolding get_service_by_server_id
  get-moved s l e h =
      rw (get_service_by_server_id, pick-some s l e h, advance-some s l e h)
        (ap (λ p. fine (p, moved s)) (pick-some s l e h))

  -- With no other step between the calls, the call after `n` calls returns, without an error, the
  -- instance whose place is the index before them plus `n`, modulo the number of instances.
  pub get-rounds :
      (n : ℕ) (s : ServiceDiscovery I) (l : List I)
      → s.server_list id ≡ some l
      → 0 < length l
      → (s' : ServiceDiscovery I) × (rounds n s ≡ fine s')
        × (s'.server_list id ≡ some l)
        × (pick id s' ≡ (get_elem? l ((s.index_map id + n) % length l), none))
  get-rounds zero s l e h = (
    s,
    refl,
    e,
    subst (λ i. pick id s ≡ (get_elem? l (i % length l), none)) (omega arith) (pick-some s l e h),
  )
  get-rounds (suc n) s l e h =
      let later = get-rounds n (moved s) l e h in
      let turn : ((moved s).index_map id + n) % length l ≡ (s.index_map id + suc n) % length l =
        rw (=text_refl id, e)
          (mod-add-mod (s.index_map id + 1) (length l) n ∙ ap (λ i. i % length l) (omega arith)) in
      let (s', ran, kept, picked) = later in
      (
        s',
        rw (rounds, get-moved s l e h) ran,
        kept,
        subst (λ i. pick id s' ≡ (get_elem? l i, none)) turn picked,
      )
