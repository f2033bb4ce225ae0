-- ===== src/Discovery.antt =====
-- etcd/etcd_discovery.go: the instances of each server id, and their choice in turn. What
-- `grpc.Dial` makes of an address is the parameter `dial`; closing a connection has no effect on
-- the lists. Each function is one step but `GetServiceByServerId`, which gives up its lock between
-- its two halves.
pub mod Key
pub mod Aligned
pub mod Update
pub mod RoundRobin
pub mod Race
pub mod Watch
pub mod Tests
use axis_chat_server.Prelude.{
  ℕ, zero, suc, ◌+◌, ◌%◌, Bool, true, false, Option, none, some, is_some, List, [], ◌∷◌, ◌++◌, Text,
  ◌=text◌, length, get_elem?, take, drop, get_or, leb, ◌==◌, if◌then◌else◌,
}
use axis_chat_server.Discovery.Key.{server_id_of}

-- Go's maps by server id: a key that is missing reads as `nil` or 0, and `serverList` is also asked
-- whether it has a key.
pub record ServiceDiscovery (Instance : Type 0) : Type 0 where
  pub server_list : Text → Option (List Instance)
  pub index_map : Text → ℕ
  pub server_key : Text → List Text

abbrev pub write {ℓ} : {A : Type ℓ} → (Text → A) → Text → A → Text → A
write f k a j = if k =text j then a else f j

-- The state after a step, or a panic of the run time.
pub data Outcome (A : Type 0) : Type 0 where
  fine : A → Outcome A
  crashed : Outcome A

pub data GetError : Type 0 where
  no_such_server_id : GetError
  no_instance : GetError

-- the helper `getElementIndexInSlice`, whose -1 is `none`
unfoldable pub index_in_slice : Text → List Text → Option ℕ
index_in_slice key [] = none
index_in_slice key (val ∷ slice) =
    if val =text key
    then some 0
    else elim (index_in_slice key slice) [ none ↦ none | some i ↦ some (suc i) ]

-- append(l[:idx], l[idx+1:]...)
abbrev pub cut {ℓ} : {A : Type ℓ} → ℕ → List A → List A
cut idx l = take idx l ++ drop (suc idx) l

module _ {Instance : Type 0} where
  unfoldable pub new_service_discovery : ServiceDiscovery Instance
  new_service_discovery = record {
    server_list = λ _. none;
    index_map = λ _. 0;
    server_key = λ _. [];
  }

  abbrev pub instances : ServiceDiscovery Instance → Text → List Instance
  instances s id = get_or [] (s.server_list id)

  -- a key that is not there yet
  abbrev pub add_instance :
      Text → Text → Instance → ServiceDiscovery Instance → ServiceDiscovery Instance
  add_instance id key ins s = elim (s.server_list id) [
    | none ↦ record {
      server_list = write s.server_list id (some (ins ∷ []));
      index_map = write s.index_map id 0;
      server_key = write s.server_key id (key ∷ []);
    }
    | some l ↦ record s {
      server_list = write s.server_list id (some (l ++ ins ∷ []));
      server_key = write s.server_key id (s.server_key id ++ key ∷ []);
    }
  ]

  unfoldable pub set_at :
      (Text → Option Instance)
      → Text
      → Text
      → Text
      → ServiceDiscovery Instance
      → ServiceDiscovery Instance
  unfolding index_in_slice
  set_at dial id key val s = elim (index_in_slice key (s.server_key id)) [
    | some idx ↦ s
    | none ↦ elim (dial val) [ none ↦ s | some ins ↦ add_instance id key ins s ]
  ]

  unfoldable pub set_service_list :
      (Text → Option Instance)
      → Text
      → Text
      → ServiceDiscovery Instance
      → Outcome (ServiceDiscovery Instance)
  unfolding set_at
  set_service_list dial key val s = elim (server_id_of key) [
    | none ↦ crashed
    | some id ↦ fine (set_at dial id key val s)
  ]

  -- The test of the index against the length only logs; an index that is out of range, -1 too,
  -- then panics.
  unfoldable pub del_at :
      Text → Text → ServiceDiscovery Instance → Outcome (ServiceDiscovery Instance)
  unfolding index_in_slice
  del_at id key s = elim (index_in_slice key (s.server_key id)) [
    | none ↦ crashed
    | some idx ↦
        if leb (length (instances s id)) idx
        then crashed
        else fine (record s {
          server_list = write s.server_list id (some (cut idx (instances s id)));
          server_key = write s.server_key id (cut idx (s.server_key id));
        })
  ]

  unfoldable pub del_service_list :
      Text → ServiceDiscovery Instance → Outcome (ServiceDiscovery Instance)
  unfolding del_at
  del_service_list key s = elim (server_id_of key) [ none ↦ crashed | some id ↦ del_at id key s ]

  -- The half of `GetServiceByServerId` under the read lock.
  unfoldable pub pick : Text → ServiceDiscovery Instance → Option Instance × Option GetError
  pick id s = elim (s.server_list id) [
    | none ↦ (none, some no_such_server_id)
    | some l ↦
        if length l == 0
        then (none, some no_instance)
        else (get_elem? l (s.index_map id % length l), none)
  ]

  -- The half under the write lock: a remainder by zero panics.
  unfoldable pub advance : Text → ServiceDiscovery Instance → Outcome (ServiceDiscovery Instance)
  advance id s =
      if length (instances s id) == 0
      then crashed
      else fine (record s {
        index_map = write s.index_map id ((s.index_map id + 1) % length (instances s id));
      })

  -- Both halves, with nothing between them.
  unfoldable pub get_service_by_server_id :
      Text
      → ServiceDiscovery Instance
      → Outcome ((Option Instance × Option GetError) × ServiceDiscovery Instance)
  unfolding pick advance
  get_service_by_server_id id s = elim (pick id s).1 [
    | some e ↦ fine (pick id s, s)
    | none ↦ elim (advance id s) [ crashed ↦ crashed | fine s' ↦ fine (pick id s, s') ]
  ]

-- What etcd reports of a key under the watched prefix.
pub data Event : Type 0 where
  put_event : (key val : Text) → Event
  delete_event : (key : Text) → Event

abbrev pub and_then : {A B : Type 0} → Outcome A → (A → Outcome B) → Outcome B
and_then crashed next = crashed
and_then (fine a) next = next a

module _ {Instance : Type 0} (dial : Text → Option Instance) where
  unfoldable pub handle_event :
      Event → ServiceDiscovery Instance → Outcome (ServiceDiscovery Instance)
  unfolding set_service_list del_service_list
  handle_event (put_event key val) s = set_service_list dial key val s
  handle_event (delete_event key) s = del_service_list key s

  unfoldable pub watcher :
      List Event → ServiceDiscovery Instance → Outcome (ServiceDiscovery Instance)
  unfolding handle_event
  watcher [] s = fine s
  watcher (ev ∷ events) s = and_then (handle_event ev s) (watcher events)

  -- The keys that are there at first, and then the events of the watch. An error of the first request
  -- is left out.
  unfoldable pub watch_service :
      List (Text × Text) → ServiceDiscovery Instance → Outcome (ServiceDiscovery Instance)
  unfolding set_service_list
  watch_service [] s = fine s
  watch_service ((key, val) ∷ kvs) s =
      and_then (set_service_list dial key val s) (watch_service kvs)
