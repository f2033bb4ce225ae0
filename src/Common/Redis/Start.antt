-- ===== src/Common/Redis/Start.antt =====
-- After InitRedis every key has a server, if one of the servers answered.
use axis_chat_server.Prelude.{
  ℕ, ◌+◌, ◌*◌, ◌^◌, ◌≤◌, ◌<◌, ◌≡◌, refl, Bool, Bool-cases, true, false, ◌||◌, inl, inr, Option,
  Option-cases, none, some, get_or, is_some, List, [], ◌∷◌, arith, Text, ◌=text◌, =text_refl,
  length, elem, lookup, if◌then◌else◌, ap, sym, ◌∙◌, subst,
}
use axis_chat_server.Prelude.Int.{ℤ}
use axis_chat_server.Prelude.Atoi.{split}
use axis_chat_server.Ring.{Hash, HashBalance, new_hash_balance}
use axis_chat_server.Ring.Add.{IsRing, add-IsRing, node_hashes}
use axis_chat_server.Ring.Owner.{add-Added, get-IsNext}
use axis_chat_server.Common.Redis.{
  Cluster, parse_address, add_server, init_server, init_servers, init_redis,
}
use axis_chat_server.Common.Redis.Answering.{Reachable}

-- Each key of the ring has a server in the map of the clients.
pub record Started {R : Type 0} (c : Cluster R) : Type 0 where
  pub ring : IsRing c.consistent_hash
  pub replicas : c.consistent_hash.replicas ≡ 16
  pub servers :
      (x : ℕ)
      → elem x c.consistent_hash.keys ≡ true
      → (address : Text) × (r : R) × (lookup x c.consistent_hash.hash_map ≡ some address)
        × ((address =text []) ≡ false)
        × (c.client address ≡ some r)

module _ {R : Type 0} where
  Started-Reachable : (c : Cluster R) → Started c → 0 < length c.consistent_hash.keys → Reachable c
  Started-Reachable c s some_key key =
      let (m, next, got) = get-IsNext key c.consistent_hash s.ring some_key in
      let (address, r, at, named, known) = s.servers m next.member in
      (address, r, rw (got, at, named, known) refl)

  add_server-Started :
      (val : Text) (r : R) (c : Cluster R)
      → (val =text []) ≡ false
      → Started c
      → Started (add_server val r c)
        × (length (add_server val r c).consistent_hash.keys ≡ length c.consistent_hash.keys + 16)
  add_server-Started val r c named s =
      let (c', added, a) = add-Added val c.consistent_hash in
      let (c'', again, ring'', counted) = add-IsRing val [] c.consistent_hash s.ring in
      let same : c'' ≡ c' = ap (get_or c.consistent_hash) (sym again ∙ added) in
      let ring' = subst IsRing same ring'' in
      let counted' =
        subst
          (λ (k : HashBalance).
            length k.keys ≡ length c.consistent_hash.keys + 1 * c.consistent_hash.replicas)
          same counted in
      let sixteen = s.replicas in
      rw added (
        record {
          ring = ring';
          replicas = a.replicas ∙ s.replicas;
          servers = λ x i.
              elim (Bool-cases
                (elem x (node_hashes c.consistent_hash.hash val 0 c.consistent_hash.replicas))) [
                  | inl new ↦ (val, r, a.owner x ∙ rw new refl, named, rw (=text_refl val) refl)
                  | inr old ↦
                      let (address, q, at, its_name, known) =
                        s.servers x (ground (arith, a.member x)) in
                      elim (Bool-cases (val =text address)) [
                        | inl hit ↦ (address, r, a.owner x ∙ rw old at, its_name, rw hit refl)
                        | inr miss ↦ (address, q, a.owner x ∙ rw old at, its_name, rw miss known)
                      ]
                ];
        },
        omega (arith, counted', sixteen),
      )

  init_server-Started :
      (val : Text) (o : Option R) (c : Cluster R)
      → (val =text []) ≡ false
      → Started c
      → Started (init_server val o c)
        × (length (init_server val o c).consistent_hash.keys
            ≡ length c.consistent_hash.keys + (if is_some o then 16 else 0))
  init_server-Started val none c named s = (s, omega arith)
  init_server-Started val (some r) c named s = add_server-Started val r c named s

parsed-named : (val : Text) (hp : Text × ℤ) → parse_address val ≡ some hp → (val =text []) ≡ false
unfolding parse_address split
parsed-named [] hp e = cc
parsed-named (b ∷ bs) hp e = refl

module _ {R : Type 0} (connect_to : Text → ℤ → Option R) where
  -- One of the addresses parses to a server that answers.
  abbrev pub answering : List Text → Bool
  answering [] = false
  answering (val ∷ vals) =
      elim (parse_address val) [ none ↦ false | some hp ↦ is_some (connect_to hp.0 hp.1) ]
      || answering vals

  init_servers-Started :
      (vals : List Text) (c c' : Cluster R)
      → Started c
      → init_servers connect_to vals c ≡ some c'
      → Started c'
        × (length c.consistent_hash.keys + (if answering vals then 1 else 0)
            ≤ length c'.consistent_hash.keys)
  unfolding init_servers
  init_servers-Started [] c c' s e =
      subst
        (λ (k : Cluster R).
          Started k × (length c.consistent_hash.keys + 0 ≤ length k.consistent_hash.keys))
        (ap (get_or c) e) (s, omega arith)
  init_servers-Started (val ∷ vals) c c' s e = elim (Option-cases (parse_address val)) [
    | inl bad ↦ let never : none ≡ some c' = sym (rw (init_servers, bad) refl) ∙ e in absurd cc
    | inr (hp, good) ↦
        let o = connect_to hp.0 hp.1 in
        let (s1, more) = init_server-Started val o c (parsed-named val hp good) s in
        let run : init_servers connect_to vals (init_server val o c) ≡ some c' =
          sym (rw (init_servers, good) refl) ∙ e in
        let (s', most) = init_servers-Started vals (init_server val o c) c' s1 run in
        (
          s',
          rw good (elim (Bool-cases (is_some o)) [
            | inl here ↦ rw here (ground (arith, more, most))
            | inr missing ↦ rw missing (ground (arith, more, most))
          ]),
        )
  ]

  -- After an InitRedis that does not panic, with an address that parses to a server that answers and a
  -- hash of 32 bits, every key has a server.
  pub init_redis-Reachable :
      (checksum_ieee : Hash) (address : Text) (c : Cluster R)
      → ((t : Text) → checksum_ieee t < 2 ^ 32)
      → answering (split b';' address) ≡ true
      → init_redis connect_to checksum_ieee address ≡ some c
      → Reachable c
  unfolding init_redis new_hash_balance
  init_redis-Reachable checksum_ieee address c bound some_server e =
      let empty : Cluster R = record {
        client = λ a. none;
        consistent_hash = new_hash_balance checksum_ieee 16 none;
      } in
      let start : Started empty = record {
        ring = record {
          sorted = tt;
          hashes = bound;
          range = λ x i. absurd cc;
          mapped = λ x i. absurd cc;
        };
        replicas = refl;
        servers = λ x i. absurd cc;
      } in
      let (s, grown) = init_servers-Started (split b';' address) empty c start e in
      let grown' = rw some_server at grown in Started-Reachable c s (omega (arith, grown'))
