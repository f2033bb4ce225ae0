-- ===== src/Common/Lock.antt =====
-- common/redis_lock.go: a lock is a key that is set when it is not there, on the server that the ring gives
-- for it. What the two scripts do to a server is the parameter `Scripts`.
pub mod Freed
use axis_chat_server.Prelude.{
  ℕ, ◌+◌, ◌*◌, ◌%◌, ◌^◌, Bool, true, false, Text, ◌=text◌, ◌==◌, [], ◌∷◌, if◌then◌else◌,
}
use axis_chat_server.Common.Redis.{
  Reply, value, nil, failed, Result, ok, err, RedisError, command_failed, Cluster,
  get_redis_client_by_key, on_client, then_result,
}

-- SET with NX and PX, whose reply is "OK" or nil, and DEL, whose reply is the number of the keys that
-- it removed.
pub record Scripts (R : Type 0) : Type 0 where
  pub lock_command : Text → Text → ℕ → R → Reply Text × R
  pub del_command : Text → R → Reply ℕ × R

-- The client of a lock is the one of its key, as long as the ring is as it was.
pub record RedisLockObj : Type 0 where
  pub timeout : ℕ
  pub key : Text
  pub value_ : Text

-- milliseconds
abbrev pub tolerance : ℕ
tolerance = 500

abbrev pub millis_per_second : ℕ
millis_per_second = 1000

unfoldable pub new_redis_locker :
    {R : Type 0} → Text → Text → Cluster R → Result RedisError RedisLockObj
new_redis_locker key v c =
    then_result (record { timeout = 0; key = key; value_ = v }) (get_redis_client_by_key key c)

unfoldable pub set_expire : ℕ → RedisLockObj → RedisLockObj
set_expire seconds rl = record rl { timeout = seconds % 2 ^ 32 }

abbrev pub ok_text : Text
ok_text = b'O' ∷ b'K' ∷ []

-- what Acquire answers to the reply of the script
abbrev pub acquired : Result RedisError (Reply Text) → Result RedisError Bool
acquired (err e) = err e
acquired (ok nil) = ok false
acquired (ok failed) = err command_failed
acquired (ok (value reply)) = ok (reply =text ok_text)

abbrev pub released : Result RedisError (Reply ℕ) → Result RedisError Bool
released (err e) = err e
released (ok nil) = err command_failed
released (ok failed) = err command_failed
released (ok (value reply)) = ok (reply == 1)

module _ {R : Type 0} (scripts : Scripts R) where
  unfoldable pub acquire : RedisLockObj → Cluster R → Result RedisError Bool × Cluster R
  acquire rl c =
      let (res, c') =
        on_client rl.key
          (scripts.lock_command rl.key rl.value_ (rl.timeout * millis_per_second + tolerance)) c in
      (acquired res, c')

  -- The value of the lock is not looked at.
  unfoldable pub release : RedisLockObj → Cluster R → Result RedisError Bool × Cluster R
  release rl c =
      let (res, c') = on_client rl.key (scripts.del_command rl.key) c in (released res, c')
