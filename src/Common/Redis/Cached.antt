-- ===== src/Common/Redis/Cached.antt =====
-- common/redis.go, GetSet: a read through the cache. What is computed when the cache has no entry is the
-- function of the options, and JSON the parameter `Json`.
use axis_chat_server.Prelude.{ℕ, Option, none, some, [], ◌∷◌, Text}
use axis_chat_server.Common.Redis.{
  Client, Cluster, Result, ok, err, RedisError, redis_get_string, redis_set_string,
}

-- The function has a state of its own, the database's; it answers an error (`none`), no value or a value.
-- `receiver` is the value that is there at first.
pub record CacheOptions (A D : Type 0) : Type 0 where
  pub key : Text
  pub duration : ℕ
  pub fun : D → Option (Option A) × D
  pub receiver : Option A

-- json.Marshal and json.Unmarshal of the receiver's type, either of which can fail. For a receiver of bytes, which is
-- stored and read as it is, both are the identity.
pub record Json (A V : Type 0) : Type 0 where
  pub marshal : A → Option V
  pub unmarshal : V → Option A

pub data CacheError : Type 0 where
  illegal_arguments : CacheError
  cache_failed : RedisError → CacheError
  fun_failed : CacheError
  not_marshalled : CacheError
  not_parsed : CacheError

-- the caches, and the state of the function
abbrev pub Cached : Type 0 → Type 0 → Type 0
Cached R D = Cluster R × D

abbrev pub parsed : {A : Type 0} → Option A → Result CacheError (Option A)
parsed none = err not_parsed
parsed (some a) = ok (some a)

module _ {R V A D : Type 0} (api : Client R V) (json : Json A V) where
  abbrev pub stored_as :
      A → Result RedisError Unit × Cluster R → D → Result CacheError (Option A) × Cached R D
  stored_as a (err e, c) d = (err (cache_failed e), (c, d))
  stored_as a (ok t, c) d = (ok (some a), (c, d))

  abbrev pub store :
      CacheOptions A D → A → Option V → Cached R D → Result CacheError (Option A) × Cached R D
  store o a none s = (err not_marshalled, s)
  store o a (some buf) (c, d) = stored_as a (redis_set_string api o.key buf o.duration c) d

  abbrev pub computed :
      CacheOptions A D
      → Option (Option A) × D
      → Cluster R
      → Result CacheError (Option A) × Cached R D
  computed o (none, d) c = (err fun_failed, (c, d))
  computed o (some none, d) c = (ok none, (c, d))
  computed o (some (some a), d) c = store o a (json.marshal a) (c, d)

  abbrev pub looked_up :
      CacheOptions A D
      → Result RedisError (Option V) × Cluster R
      → D
      → Result CacheError (Option A) × Cached R D
  looked_up o (err e, c) d = (err (cache_failed e), (c, d))
  looked_up o (ok none, c) d = computed o (o.fun d) c
  looked_up o (ok (some v), c) d = (parsed (json.unmarshal v), (c, d))

  abbrev pub with_receiver :
      CacheOptions A D → Text → Option A → Cached R D → Result CacheError (Option A) × Cached R D
  with_receiver o key none s = (err illegal_arguments, s)
  with_receiver o [] (some a) s = (err illegal_arguments, s)
  with_receiver o (b ∷ bs) (some a) (c, d) = looked_up o (redis_get_string api o.key c) d

  unfoldable pub get_set : CacheOptions A D → Cached R D → Result CacheError (Option A) × Cached R D
  get_set o s = with_receiver o o.key o.receiver s
