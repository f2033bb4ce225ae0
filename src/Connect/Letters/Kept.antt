-- ===== src/Connect/Letters/Kept.antt =====
-- Keeping a message leaves the strings of other keys.
use axis_chat_server.Prelude.{
  ℕ, zero, suc, ◌+◌, ◌*◌, ◌≡◌, refl, Bool-cases, false, inl, inr, Option, none, some, Text, ◌=text◌,
  ◌==◌, ap, subst, ◌∙◌,
}
use axis_chat_server.Common.Param.{op_friend_msg_send, op_group_msg_send}
use axis_chat_server.Common.Keys.{
  kafka_topic_offset, user_letter_box, group_letter_box, persistent_lock,
}
use axis_chat_server.Common.Redis.{
  Client, Cluster, Result, ok, err, RedisError, redis_hset, then_result,
}
use axis_chat_server.Common.Redis.Views.{on_client-kept}
use axis_chat_server.Common.Redis.Strings.{Strings, string_at}
use axis_chat_server.Common.Lock.{
  Scripts, RedisLockObj, new_redis_locker, set_expire, acquire, release, tolerance,
  millis_per_second,
}
use axis_chat_server.Connect.Channel.{Payload}
use axis_chat_server.Connect.Letters.{
  Codec, some_ok, is_taken, lock_value, group_row, friend_row, acquire_until, put_locked, put_with,
  put_in_box, keep_msg,
}

then_result-eq : {E A B : Type 0} (b b' : B) (x : Result E A) → then_result b x ≡ ok b' → b' ≡ b
then_result-eq b b' (ok a) e = cc
then_result-eq b b' (err x) e = cc

pub some_ok-eq : {E A : Type 0} (x : Result E A) (a : A) → some_ok x ≡ some a → x ≡ ok a
some_ok-eq (ok b) a e = cc
some_ok-eq (err b) a e = cc

-- A lock object has the key that it was made for.
pub new_redis_locker-key :
    {R : Type 0} (key v : Text) (c : Cluster R) (rl : RedisLockObj)
    → new_redis_locker key v c ≡ ok rl
    → rl.key ≡ key
unfolding new_redis_locker
new_redis_locker-key key v c rl e = ap (λ (l : RedisLockObj). l.key) (then_result-eq _ rl _ e)

set_expire-key : (n : ℕ) (rl : RedisLockObj) → (set_expire n rl).key ≡ rl.key
unfolding set_expire
set_expire-key n rl = refl

module _ {R V : Type 0} (api : Client R V) (scripts : Scripts R) (strings : Strings R V api)
    (codec : Codec V) where
  -- What redis documents of the strings of other keys.
  pub record Strangers : Type 0 where
    pub lock_string :
        (k v j : Text) (x : ℕ) (r : R)
        → (k =text j) ≡ false
        → strings.string j (scripts.lock_command k v x r).1 ≡ strings.string j r
    pub del_string :
        (k j : Text) (r : R)
        → (k =text j) ≡ false
        → strings.string j (scripts.del_command k r).1 ≡ strings.string j r
    pub hset_string :
        (k f v j : Text) (r : R)
        → (k =text j) ≡ false
        → strings.string j (api.hset k f v r).1 ≡ strings.string j r

  module _ (strangers : Strangers) (j : Text) where
    pub release-kept :
        (rl : RedisLockObj) (c : Cluster R)
        → (rl.key =text j) ≡ false
        → string_at api strings j (release scripts rl c).1 ≡ string_at api strings j c
    unfolding release
    release-kept rl c apart =
        on_client-kept (strings.string j) none j rl.key (scripts.del_command rl.key) c
          (λ r. strangers.del_string rl.key j r apart)

    acquire-kept :
        (rl : RedisLockObj) (c : Cluster R)
        → (rl.key =text j) ≡ false
        → string_at api strings j (acquire scripts rl c).1 ≡ string_at api strings j c
    unfolding acquire
    acquire-kept rl c apart =
        let px = rl.timeout * millis_per_second + tolerance in
        on_client-kept (strings.string j) none j rl.key (scripts.lock_command rl.key rl.value_ px) c
          (λ r. strangers.lock_string rl.key rl.value_ j px r apart)

    hset-kept :
        (key f v : Text) (c : Cluster R)
        → (key =text j) ≡ false
        → string_at api strings j (redis_hset api key f v c).1 ≡ string_at api strings j c
    unfolding redis_hset
    hset-kept key f v c apart =
        on_client-kept (strings.string j) none j key (api.hset key f v) c
          (λ r. strangers.hset_string key f v j r apart)

    acquire_until-kept :
        (attempts : ℕ) (rl : RedisLockObj) (c c' : Cluster R)
        → (rl.key =text j) ≡ false
        → acquire_until scripts attempts rl c ≡ some c'
        → string_at api strings j c' ≡ string_at api strings j c
    unfolding acquire_until
    acquire_until-kept zero rl c c' apart e = cc
    acquire_until-kept (suc n) rl c c' apart e =
        elim (Bool-cases (is_taken (acquire scripts rl c).0)) [
          | inl took ↦
              let same : (acquire scripts rl c).1 ≡ c' = cc in
              subst (λ x. string_at api strings j x ≡ string_at api strings j c) same
                (acquire-kept rl c apart)
          | inr busy ↦
              acquire_until-kept n rl (acquire scripts rl c).1 c' apart
                (rw (acquire_until, busy) at e)
              ∙ acquire-kept rl c apart
        ]

    put_locked-kept :
        (box f v : Text) (rl : RedisLockObj) (o : Option (Cluster R)) (c : Cluster R)
        → (rl.key =text j) ≡ false
        → (box =text j) ≡ false
        → ((c' : Cluster R) → o ≡ some c' → string_at api strings j c' ≡ string_at api strings j c)
        → string_at api strings j (put_locked api scripts codec box f v rl o c).1
          ≡ string_at api strings j c
    put_locked-kept box f v rl none c a b k = refl
    put_locked-kept box f v rl (some c1) c a b k =
        release-kept rl (redis_hset api box f v c1).1 a ∙ hset-kept box f v c1 b ∙ k c1 refl

    put_with-kept :
        (attempts : ℕ) (box f v lock_key : Text) (x : Result RedisError RedisLockObj)
        (c : Cluster R)
        → ((rl : RedisLockObj) → x ≡ ok rl → rl.key ≡ lock_key)
        → (lock_key =text j) ≡ false
        → (box =text j) ≡ false
        → string_at api strings j (put_with api scripts codec attempts box f v x c).1
          ≡ string_at api strings j c
    put_with-kept attempts box f v lock_key (err e) c named a b = refl
    put_with-kept attempts box f v lock_key (ok rl) c named a b =
        let lock = set_expire 60 rl in
        let apart : (lock.key =text j) ≡ false =
          ap (λ k. k =text j) (set_expire-key 60 rl ∙ named rl refl) ∙ a in
        put_locked-kept box f v lock (acquire_until scripts attempts lock c) c apart b
          (λ c' e. acquire_until-kept attempts lock c c' apart e)

    put_in_box-kept :
        (attempts : ℕ) (box f v : Text) (c : Cluster R)
        → (persistent_lock box =text j) ≡ false
        → (box =text j) ≡ false
        → string_at api strings j (put_in_box api scripts codec attempts box f v c).1
          ≡ string_at api strings j c
    unfolding put_in_box
    put_in_box-kept attempts box f v c a b =
        put_with-kept attempts box f v (persistent_lock box)
          (new_redis_locker (persistent_lock box) lock_value c) c
          (λ rl e. new_redis_locker-key (persistent_lock box) lock_value c rl e) a b

  -- A message that is kept leaves the committed offsets.
  pub keep_msg-kept :
      Strangers
      → (topic : Text) (attempts userid : ℕ) (value : Payload) (c : Cluster R)
      → string_at api strings
          (kafka_topic_offset topic)
          (keep_msg api scripts codec attempts userid value c).1
        ≡ string_at api strings (kafka_topic_offset topic) c
  unfolding keep_msg
  keep_msg-kept strangers topic attempts userid value c =
      let m = codec.as_chat value in
      elim (Bool-cases (value.op == op_group_msg_send)) [
        | inl to_group ↦ rw to_group (
            put_in_box-kept strangers (kafka_topic_offset topic) attempts
              (group_letter_box m.group_id) m.snow_id (codec.message_json (group_row m)) c refl
              refl)
        | inr other ↦ elim (Bool-cases (value.op == op_friend_msg_send)) [
          | inl to_friend ↦
              rw (other, to_friend)
                (put_in_box-kept strangers (kafka_topic_offset topic) attempts
                  (user_letter_box userid) m.snow_id (codec.message_json (friend_row userid m)) c
                  refl refl)
          | inr nothing ↦ rw (other, nothing) refl
        ]
      ]
