-- ===== src/Discovery/Tests.antt =====
-- Two instances of one server id.
use axis_chat_server.Prelude.{
  ℕ, ◌+◌, ◌%◌, ◌≡◌, refl, Bool-cases, ◌&&◌, inl, inr, Option, none, some, [], ◌∷◌, arith, Text,
  ◌=text◌, length, get_elem?, if◌then◌else◌,
}
use axis_chat_server.Discovery.{
  ServiceDiscovery, fine, crashed, set_at, del_at, pick, advance, new_service_discovery, put_event,
  delete_event, and_then, watcher, watch_service,
}
use axis_chat_server.Discovery.Watch.{AlignedAfter, watch-AlignedAfter}
use axis_chat_server.Discovery.Update.{
  IsAligned, instance_of, Entered, set_at-IsAligned, del_at-IsAligned,
}
use axis_chat_server.Discovery.RoundRobin.{rounds, get-rounds}
use axis_chat_server.Discovery.Race.{del_between-crashed}

-- the server id "w" and its keys
abbrev id : Text
id = b'w' ∷ []

abbrev key_of : ℕ → Text
key_of n = n ∷ []

abbrev two : ServiceDiscovery ℕ
two = record {
  server_list = λ j. if id =text j then some (100 ∷ 101 ∷ []) else none;
  index_map = λ j. 1;
  server_key = λ j. if id =text j then key_of 1 ∷ key_of 2 ∷ [] else [];
}

abbrev one : ServiceDiscovery ℕ
one = record {
  server_list = λ j. if id =text j then some (100 ∷ []) else none;
  index_map = λ j. 0;
  server_key = λ j. if id =text j then key_of 1 ∷ [] else [];
}

two-IsAligned : IsAligned two
two-IsAligned j = elim (Bool-cases (id =text j)) [
  | inl hit ↦ rw hit (refl, (refl, (refl, tt)))
  | inr miss ↦ rw miss (refl, tt)
]

one-IsAligned : IsAligned one
one-IsAligned j = elim (Bool-cases (id =text j)) [
  | inl hit ↦ rw hit (refl, (refl, tt))
  | inr miss ↦ rw miss (refl, tt)
]

abbrev dial : Text → Option ℕ
dial addr = some 102

set_at-IsAligned_example :
    Entered id (key_of 3) two two-IsAligned (dial []) (set_at dial id (key_of 3) [] two)
set_at-IsAligned_example = set_at-IsAligned id (key_of 3) two two-IsAligned dial []

del_at-IsAligned_example :
    (s' : ServiceDiscovery ℕ) × (del_at id (key_of 1) two ≡ fine s')
    × IsAligned s'
    × ((j k : Text)
        → instance_of s' j k
          ≡ (if (id =text j) && (key_of 1 =text k) then none else instance_of two j k))
del_at-IsAligned_example = del_at-IsAligned id (key_of 1) two two-IsAligned

get-rounds_example :
    (s' : ServiceDiscovery ℕ) × (rounds id 2 two ≡ fine s')
    × (s'.server_list id ≡ some (100 ∷ 101 ∷ []))
    × (pick id s' ≡ (
      get_elem? {A = ℕ} (100 ∷ 101 ∷ []) ((two.index_map id + 2) % length {A = ℕ} (100 ∷ 101 ∷ [])),
      none,
    ))
get-rounds_example = get-rounds id 2 two (100 ∷ 101 ∷ []) refl (omega arith)

del_between-crashed_example :
    ((pick id one).1 ≡ none)
    × (s' : ServiceDiscovery ℕ) × (del_at id (key_of 1) one ≡ fine s')
    × (advance id s' ≡ crashed)
del_between-crashed_example = del_between-crashed id (key_of 1) one one-IsAligned refl refl

-- The key "&w" has the server id "w".
abbrev etcd_key : Text
etcd_key = b'&' ∷ id

watch-AlignedAfter_example : AlignedAfter (
    and_then
      (watch_service dial ((etcd_key, []) ∷ []) new_service_discovery)
      (watcher dial (delete_event etcd_key ∷ put_event etcd_key [] ∷ [])))
watch-AlignedAfter_example =
    watch-AlignedAfter dial ((etcd_key, []) ∷ [])
      (delete_event etcd_key ∷ put_event etcd_key [] ∷ [])
