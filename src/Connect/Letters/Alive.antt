-- ===== src/Connect/Letters/Alive.antt =====
-- Handing over a message does not panic while the ring gives a server for every key.
use axis_chat_server.Prelude.{
  ℕ, zero, suc, ◌+◌, ◌*◌, ◌≡◌, refl, Bool, Bool-cases, true, false, inl, inr, Option, none, some,
  Text, ◌==◌, ap, sym, subst,
}
use axis_chat_server.Common.Param.{op_friend_msg_send, op_group_msg_send}
use axis_chat_server.Common.Keys.{
  kafka_topic_offset, redis_lock, user_letter_box, group_letter_box, persistent_lock,
}
use axis_chat_server.Common.Redis.{
  Client, Cluster, Result, ok, err, RedisError, redis_get_string, redis_set_string, redis_hset,
  then_result,
}
use axis_chat_server.Common.Redis.Answering.{Reachable, on_client-Reachable}
use axis_chat_server.Common.Lock.{
  Scripts, RedisLockObj, new_redis_locker, set_expire, acquire, release, tolerance,
  millis_per_second,
}
use axis_chat_server.Connect.Channel.{Payload, Message}
use axis_chat_server.Connect.Letters.{
  Codec, Pump, goes_on, returned, waiting, crashed, some_value, is_taken, lock_value, group_row,
  friend_row, acquire_until, put_locked, put_with, put_in_box, keep_msg, is_consumed, offset_info,
  and_then, committed, hand_over,
}

abbrev pub is_crashed : Pump → Bool
is_crashed goes_on = false
is_crashed returned = false
is_crashed waiting = false
is_crashed crashed = true

-- A step that has not crashed, and a state with a property.
abbrev pub Alive : {W : Type 0} → (W → Type 0) → Pump × W → Type 0
Alive P step = (is_crashed step.0 ≡ false) × P step.1

pub and_then-Alive :
    {W : Type 0} (P : W → Type 0) (p : Pump × W) (next : W → Pump × W)
    → Alive P p
    → ((w : W) → P w → Alive P (next w))
    → Alive P (and_then p next)
and_then-Alive P (goes_on, w) next (f, good) later = later w good
and_then-Alive P (returned, w) next alive later = alive
and_then-Alive P (waiting, w) next alive later = alive
and_then-Alive P (crashed, w) next (f, good) later = absurd cc

-- NewRedisLocker gives a lock object of its key.
pub new_redis_locker-ok :
    {R : Type 0} (key v : Text) (c : Cluster R)
    → Reachable c
    → new_redis_locker key v c ≡ ok (record { timeout = 0; key = key; value_ = v })
unfolding new_redis_locker
new_redis_locker-ok key v c reach = let (address, r, good) = reach key in ap (then_result _) good

module _ {R : Type 0} (scripts : Scripts R) where
  pub release-Reachable :
      (lock : RedisLockObj) (c : Cluster R) → Reachable c → Reachable (release scripts lock c).1
  unfolding release
  release-Reachable lock c reach =
      on_client-Reachable lock.key (scripts.del_command lock.key) c reach

  pub acquire-Reachable :
      (lock : RedisLockObj) (c : Cluster R) → Reachable c → Reachable (acquire scripts lock c).1
  unfolding acquire
  acquire-Reachable lock c reach =
      on_client-Reachable lock.key
        (scripts.lock_command lock.key lock.value_ (lock.timeout * millis_per_second + tolerance)) c
        reach

  pub acquire_until-Reachable :
      (attempts : ℕ) (rl : RedisLockObj) (c c' : Cluster R)
      → Reachable c
      → acquire_until scripts attempts rl c ≡ some c'
      → Reachable c'
  unfolding acquire_until
  acquire_until-Reachable zero rl c c' reach e = cc
  acquire_until-Reachable (suc n) rl c c' reach e =
      let reach1 = acquire-Reachable rl c reach in
      elim (Bool-cases (is_taken (acquire scripts rl c).0)) [
        | inl took ↦
            let same : (acquire scripts rl c).1 ≡ c' = cc in subst (λ x. Reachable x) same reach1
        | inr busy ↦
            acquire_until-Reachable n rl (acquire scripts rl c).1 c' reach1
              (rw (acquire_until, busy) at e)
      ]

module _ {R V : Type 0} (api : Client R V) (scripts : Scripts R) (codec : Codec V) where
  put_locked-Alive :
      (box f v : Text) (rl : RedisLockObj) (o : Option (Cluster R)) (c : Cluster R)
      → Reachable c
      → ((c' : Cluster R) → o ≡ some c' → Reachable c')
      → Alive Reachable (put_locked api scripts codec box f v rl o c)
  unfolding redis_hset
  put_locked-Alive box f v rl none c reach later = (refl, reach)
  put_locked-Alive box f v rl (some c1) c reach later = (
    refl,
    release-Reachable scripts rl (redis_hset api box f v c1).1
        (on_client-Reachable box (api.hset box f v) c1 (later c1 refl)),
  )

  put_in_box-Alive :
      (attempts : ℕ) (box f v : Text) (c : Cluster R)
      → Reachable c
      → Alive Reachable (put_in_box api scripts codec attempts box f v c)
  unfolding put_in_box
  put_in_box-Alive attempts box f v c reach =
      let lock =
        set_expire 60 (record { timeout = 0; key = persistent_lock box; value_ = lock_value }) in
      subst (λ x. Alive Reachable (put_with api scripts codec attempts box f v x c))
        (sym (new_redis_locker-ok (persistent_lock box) lock_value c reach))
        (put_locked-Alive box f v lock (acquire_until scripts attempts lock c) c reach
          (λ c' e. acquire_until-Reachable scripts attempts lock c c' reach e))

  keep_msg-Alive :
      (attempts userid : ℕ) (m : Payload) (c : Cluster R)
      → Reachable c
      → Alive Reachable (keep_msg api scripts codec attempts userid m c)
  unfolding keep_msg
  keep_msg-Alive attempts userid m c reach =
      let chat = codec.as_chat m in
      elim (Bool-cases (m.op == op_group_msg_send)) [
        | inl to_group ↦ rw to_group (
            put_in_box-Alive attempts (group_letter_box chat.group_id) chat.snow_id
              (codec.message_json (group_row chat)) c reach)
        | inr other ↦ elim (Bool-cases (m.op == op_friend_msg_send)) [
          | inl to_friend ↦
              rw (other, to_friend)
                (put_in_box-Alive attempts (user_letter_box userid) chat.snow_id
                  (codec.message_json (friend_row userid chat)) c reach)
          | inr nothing ↦ rw (other, nothing) (refl, reach)
        ]
      ]

  committed-Alive :
      (attempts userid : ℕ) (msg : Message) (rl : RedisLockObj)
      (q : Result RedisError Unit × Cluster R)
      → Reachable q.1
      → Alive Reachable (committed api scripts codec attempts userid msg (some rl) q)
  committed-Alive attempts userid msg rl (err e, c) reach = (refl, reach)
  committed-Alive attempts userid msg rl (ok t, c) reach =
      keep_msg-Alive attempts userid msg.value (release scripts rl c).1
        (release-Reachable scripts rl c reach)

  pub hand_over-Alive :
      (attempts userid : ℕ) (msg : Message) (c : Cluster R)
      → Reachable c
      → Alive Reachable (hand_over api scripts codec attempts userid msg c)
  unfolding hand_over redis_get_string redis_set_string
  hand_over-Alive attempts userid msg c reach =
      let key = kafka_topic_offset msg.topic in
      let rl : RedisLockObj = record {
        timeout = 0;
        key = redis_lock msg.topic;
        value_ = msg.topic;
      } in
      let made = new_redis_locker-ok (redis_lock msg.topic) msg.topic c reach in
      let read = redis_get_string api key c in
      let reach1 = on_client-Reachable key (api.get_ key) c reach in
      let body = codec.offset_json (offset_info msg) in
      let set = redis_set_string api key body 0 read.1 in
      let reach2 = on_client-Reachable key (api.set_ key body 0) read.1 reach1 in
      elim (Bool-cases (is_consumed (codec.as_offset (some_value read.0)).offset msg)) [
        | inl old ↦ rw (hand_over, made, old) (refl, release-Reachable scripts rl read.1 reach1)
        | inr new ↦ rw (hand_over, made, new) (committed-Alive attempts userid msg rl set reach2)
      ]
