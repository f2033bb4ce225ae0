-- ===== src/Common/Redis.antt =====
-- common/redis.go: each command goes to the server that the ring gives for its key. What the client
-- library's commands do to a server is the parameter `Client`; the state of a server has the type
-- `R`, a string value the type `V`.
pub mod Views
pub mod Effects
pub mod Fields
pub mod Strings
pub mod Answering
pub mod Cached
pub mod Twice
pub mod Start
pub mod Tests
use axis_chat_server.Prelude.Atoi.{atoi, split}
use axis_chat_server.Prelude.{
  ℕ, Bool, true, false, Option, get_or, none, some, List, [], ◌∷◌, Text, ◌=text◌, if◌then◌else◌,
}
use axis_chat_server.Prelude.Int.{ℤ}
use axis_chat_server.Ring.{Hash, HashBalance, new_hash_balance, add, get}

-- The outcome of a command: a value, `redis.Nil`, or another error.
pub data Reply (A : Type 0) : Type 0 where
  value : A → Reply A
  nil : Reply A
  failed : Reply A

pub data RedisError : Type 0 where
  no_node : RedisError
  no_address : RedisError
  no_client : RedisError
  command_failed : RedisError

pub data Result (E A : Type 0) : Type 0 where
  ok : A → Result E A
  err : E → Result E A

-- The commands of go-redis that the code calls. An expiry is in seconds, 0 for none.
pub record Client (R V : Type 0) : Type 0 where
  pub get_ : Text → R → Reply V × R
  pub set_ : Text → V → ℕ → R → Reply Unit × R
  pub del_ : Text → R → Reply Unit × R
  pub hget : Text → Text → R → Reply Text × R
  pub hset : Text → Text → Text → R → Reply Unit × R
  pub hincr_by : Text → Text → ℤ → R → Reply ℤ × R
  pub hget_all : Text → R → Reply (List (Text × Text)) × R
  pub hdel : Text → Text → R → Reply Unit × R
  pub incr_ : Text → R → Reply ℤ × R
  pub decr_ : Text → R → Reply ℤ × R
  pub lpush : Text → V → R → Reply Unit × R
  pub brpop : ℕ → Text → R → Reply (List V) × R

-- `redisClientMap` and `consistentHash`: the servers by their address, and the ring.
pub record Cluster (R : Type 0) : Type 0 where
  pub client : Text → Option R
  pub consistent_hash : HashBalance

-- utils/common.go, ParseAddress: "host@port", whose port is read by `Atoi`, 0 on a text that is no
-- number; `none` is the error.
unfoldable pub parse_address : Text → Option (Text × ℤ)
parse_address addr = elim (split b'@' addr) [
  | [] ↦ none
  | host ∷ rest ↦ elim rest [
    | [] ↦ none
    | port ∷ more ↦ elim more [ [] ↦ some (host, atoi port) | other ∷ others ↦ none ]
  ]
]

module _ {R : Type 0} where
  -- the server in the map of the clients, for an address
  abbrev pub in_map : Text → Option R → Result RedisError (Text × R)
  in_map address none = err no_client
  in_map address (some r) = ok (address, r)

  -- the same for what the ring gives
  abbrev pub find_client : Option Text → Cluster R → Result RedisError (Text × R)
  find_client none c = err no_node
  find_client (some address) c =
      if address =text [] then err no_address else in_map address (c.client address)

  abbrev pub get_redis_client_by_key : Text → Cluster R → Result RedisError (Text × R)
  get_redis_client_by_key key c = find_client (get key c.consistent_hash) c

  -- a command that is sent to the key's server, and the state of that server after it
  abbrev pub answered :
      {A : Type 0} → Text → Cluster R → Reply A × R → Result RedisError (Reply A) × Cluster R
  answered address c (reply, r) =
      (ok reply, record c { client = λ a. if address =text a then some r else c.client a })

  abbrev pub run_on :
      {A : Type 0}
      → Cluster R
      → (R → Reply A × R)
      → Result RedisError (Text × R)
      → Result RedisError (Reply A) × Cluster R
  run_on c command (err e) = (err e, c)
  run_on c command (ok (address, r)) = answered address c (command r)

  abbrev pub on_client :
      {A : Type 0} → Text → (R → Reply A × R) → Cluster R → Result RedisError (Reply A) × Cluster R
  on_client key command c = run_on c command (get_redis_client_by_key key c)

-- err != nil
abbrev pub strict : {A : Type 0} → Result RedisError (Reply A) → Result RedisError A
strict (err e) = err e
strict (ok (value a)) = ok a
strict (ok nil) = err command_failed
strict (ok failed) = err command_failed

-- err != nil && err != redis.Nil, where a missing value is Go's `nil`
abbrev pub lenient : {A : Type 0} → Result RedisError (Reply A) → Result RedisError (Option A)
lenient (err e) = err e
lenient (ok (value a)) = ok (some a)
lenient (ok nil) = ok none
lenient (ok failed) = err command_failed

-- `.Val() != ""`: an error reads as "".
abbrev pub has_val : Result RedisError (Reply Text) → Bool
has_val (err e) = false
has_val (ok nil) = false
has_val (ok failed) = false
has_val (ok (value [])) = false
has_val (ok (value (b ∷ bs))) = true

abbrev pub then_result : {E A B : Type 0} → B → Result E A → Result E B
then_result b (ok a) = ok b
then_result b (err e) = err e

-- the return on an error of GetRedisClientByKey
abbrev pub or_refused : {E A B C : Type 0} → Result E A → C → Result E B × C → Result E B × C
or_refused (err e) c next = (err e, c)
or_refused (ok a) c next = next

-- what RedisHDel does when it has read the field, with the outcome of an HDEL
abbrev pub hdel_next :
    {R : Type 0}
    → Bool
    → Result RedisError (Reply Unit) × Cluster R
    → Cluster R
    → Result RedisError Bool × Cluster R
hdel_next true (res, c2) c1 = (then_result true (strict res), c2)
hdel_next false gone c1 = (ok false, c1)

module _ {R V : Type 0} (api : Client R V) where
  unfoldable pub redis_set_string : Text → V → ℕ → Cluster R → Result RedisError Unit × Cluster R
  redis_set_string key v expire c =
      let (res, c') = on_client key (api.set_ key v expire) c in (strict res, c')

  unfoldable pub redis_get_string : Text → Cluster R → Result RedisError (Option V) × Cluster R
  redis_get_string key c = let (res, c') = on_client key (api.get_ key) c in (lenient res, c')

  unfoldable pub redis_del_string : Text → Cluster R → Result RedisError (Option Unit) × Cluster R
  redis_del_string key c = let (res, c') = on_client key (api.del_ key) c in (lenient res, c')

  unfoldable pub redis_hset : Text → Text → Text → Cluster R → Result RedisError Unit × Cluster R
  redis_hset key filed v c =
      let (res, c') = on_client key (api.hset key filed v) c in (strict res, c')

  -- The result is true when the field was there before. The field is also read as a format, which
  -- a number does not notice.
  unfoldable pub redis_is_not_exist_hset :
      Text → Text → Text → Cluster R → Result RedisError Bool × Cluster R
  unfolding redis_hset
  redis_is_not_exist_hset key filed v c = or_refused (get_redis_client_by_key key c) c (
      let (old, c1) = on_client key (api.hget key filed) c in
      let (res, c2) = redis_hset key filed v c1 in (then_result (has_val old) res, c2))

  unfoldable pub redis_hincr_by : Text → Text → ℤ → Cluster R → Result RedisError Unit × Cluster R
  redis_hincr_by key filed increment c =
      let (res, c') = on_client key (api.hincr_by key filed increment) c in
      (then_result tt (strict res), c')

  unfoldable pub redis_hget_all :
      Text → Cluster R → Result RedisError (List (Text × Text)) × Cluster R
  redis_hget_all key c = let (res, c') = on_client key (api.hget_all key) c in (strict res, c')

  unfoldable pub redis_hget : Text → Text → Cluster R → Result RedisError Text × Cluster R
  redis_hget key filed c = let (res, c') = on_client key (api.hget key filed) c in (strict res, c')

  -- The result is true when the field was there before.
  unfoldable pub redis_hdel : Text → Text → Cluster R → Result RedisError Bool × Cluster R
  redis_hdel key filed c = or_refused (get_redis_client_by_key key c) c (
      let (old, c1) = on_client key (api.hget key filed) c in
      hdel_next (has_val old) (on_client key (api.hdel key filed) c1) c1)

  unfoldable pub redis_inc : Text → Cluster R → Result RedisError Unit × Cluster R
  redis_inc key c =
      let (res, c') = on_client key (api.incr_ key) c in (then_result tt (strict res), c')

  unfoldable pub redis_decr : Text → Cluster R → Result RedisError Unit × Cluster R
  redis_decr key c =
      let (res, c') = on_client key (api.decr_ key) c in (then_result tt (strict res), c')

  unfoldable pub redis_lpush : Text → V → Cluster R → Result RedisError Unit × Cluster R
  redis_lpush key v c = let (res, c') = on_client key (api.lpush key v) c in (strict res, c')

  -- A timeout gives `nil`, which is no error here.
  unfoldable pub redis_brpop :
      Text → ℕ → Cluster R → Result RedisError (Option (List V)) × Cluster R
  redis_brpop key time_out c =
      let (res, c') = on_client key (api.brpop time_out key) c in (lenient res, c')

module _ {R : Type 0} where
  abbrev pub add_server : Text → R → Cluster R → Cluster R
  add_server val r c = record {
    client = λ a. if val =text a then some r else c.client a;
    consistent_hash = get_or c.consistent_hash (add (val ∷ []) c.consistent_hash);
  }

  abbrev pub init_server : Text → Option R → Cluster R → Cluster R
  init_server val none c = c
  init_server val (some r) c = add_server val r c

-- InitRedis over the list of addresses. `connect_to` is the client of a host and port, if it answers a
-- Ping; `none` is the panic on an address that does not parse. 16 is the number of virtual nodes.
module _ {R : Type 0} (connect_to : Text → ℤ → Option R) where
  unfoldable pub init_servers : List Text → Cluster R → Option (Cluster R)
  init_servers [] c = some c
  init_servers (val ∷ host_list) c = elim (parse_address val) [
    | none ↦ none
    | some hp ↦ init_servers host_list (init_server val (connect_to hp.0 hp.1) c)
  ]

  unfoldable pub init_redis : Hash → Text → Option (Cluster R)
  unfolding init_servers
  init_redis checksum_ieee address =
      init_servers (split b';' address)
        (record { client = λ a. none; consistent_hash = new_hash_balance checksum_ieee 16 none })
