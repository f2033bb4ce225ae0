-- ===== src/Connect/Letters/Offsets.antt =====
-- The committed offset of a topic after a message was handed over.
use axis_chat_server.Prelude.{
  ℕ, ◌≤◌, ◌≡◌, refl, Bool-cases, inl, inr, Option, none, some, Text, ◌=text◌, if◌then◌else◌, ap,
  sym, ◌∙◌, arith,
}
use axis_chat_server.Common.Keys.{kafka_topic_offset, redis_lock}
use axis_chat_server.Common.Redis.{
  Client, Cluster, Result, ok, err, RedisError, redis_get_string, redis_set_string,
}
use axis_chat_server.Common.Redis.Strings.{Strings, string_at, get-string, set-Stores}
use axis_chat_server.Common.Lock.{Scripts, RedisLockObj, new_redis_locker, release}
use axis_chat_server.Connect.Channel.{Message}
use axis_chat_server.Connect.Letters.Kept.{
  Strangers, some_ok-eq, new_redis_locker-key, release-kept, keep_msg-kept,
}
use axis_chat_server.Connect.Letters.{
  Codec, KafkaMsgInfo, goes_on, some_ok, some_value, release_of, offset_info, is_consumed,
  committed, hand_over,
}

module _ {R V : Type 0} (api : Client R V) (scripts : Scripts R) (strings : Strings R V api)
    (codec : Codec V) where
  -- the offset that is committed for a topic
  abbrev pub offset_at : Text → Cluster R → ℕ
  offset_at topic c = (codec.as_offset (string_at api strings (kafka_topic_offset topic) c)).offset

  abbrev IsCodec : Type 0
  IsCodec = (i : KafkaMsgInfo) → codec.as_offset (some (codec.offset_json i)) ≡ i

  release_of-kept :
      Strangers api scripts strings codec
      → (topic : Text) (locker : Option RedisLockObj) (c : Cluster R)
      → ((rl : RedisLockObj) → locker ≡ some rl → rl.key ≡ redis_lock topic)
      → string_at api strings (kafka_topic_offset topic) (release_of scripts locker c).1
        ≡ string_at api strings (kafka_topic_offset topic) c
  release_of-kept strangers topic none c named = refl
  release_of-kept strangers topic (some rl) c named =
      release-kept api scripts strings codec strangers (kafka_topic_offset topic) rl c
        (ap (λ k. k =text kafka_topic_offset topic) (named rl refl) ∙ refl)

  committed-kept :
      Strangers api scripts strings codec
      → (attempts userid : ℕ) (msg : Message) (locker : Option RedisLockObj)
        (q : Result RedisError Unit × Cluster R)
      → ((rl : RedisLockObj) → locker ≡ some rl → rl.key ≡ redis_lock msg.topic)
      → (committed api scripts codec attempts userid msg locker q).0 ≡ goes_on
      → (q.0 ≡ ok tt)
        × (string_at api strings
              (kafka_topic_offset msg.topic)
              (committed api scripts codec attempts userid msg locker q).1
            ≡ string_at api strings (kafka_topic_offset msg.topic) q.1)
  committed-kept strangers attempts userid msg locker (err e, c) named on = cc
  committed-kept strangers attempts userid msg none (ok t, c) named on = cc
  committed-kept strangers attempts userid msg (some rl) (ok t, c) named on = (
    refl,
    keep_msg-kept api scripts strings codec strangers msg.topic attempts userid msg.value
          (release scripts rl c).1
        ∙ release_of-kept strangers msg.topic (some rl) c named,
  )

  -- the larger offset, or the same one when the message is not a new one
  abbrev pub next_offset : ℕ → Message → ℕ
  next_offset before msg = if is_consumed before msg then before else msg.offset

  next_offset_le : (before : ℕ) (msg : Message) → before ≤ next_offset before msg
  next_offset_le before msg = ground arith

  -- A message that was written to a connection, when the committed offset of its topic could be read and
  -- the step goes on: the offset stays when the message is not after it and it is not 0, and is the
  -- message's else; it never decreases. It is assumed that the strings of redis are not changed by
  -- commands on other keys.
  pub hand_over-Committed :
      Strangers api scripts strings codec
      → IsCodec
      → (attempts userid : ℕ) (msg : Message) (c : Cluster R) (o : Option V)
      → (redis_get_string api (kafka_topic_offset msg.topic) c).0 ≡ ok o
      → (hand_over api scripts codec attempts userid msg c).0 ≡ goes_on
      → (offset_at msg.topic (hand_over api scripts codec attempts userid msg c).1
          ≡ next_offset (offset_at msg.topic c) msg)
        × (offset_at msg.topic c
            ≤ offset_at msg.topic (hand_over api scripts codec attempts userid msg c).1)
  unfolding hand_over
  hand_over-Committed strangers is_codec attempts userid msg c o got on =
      let key = kafka_topic_offset msg.topic in
      let locker = some_ok (new_redis_locker (redis_lock msg.topic) msg.topic c) in
      let named = λ (rl : RedisLockObj) (e : locker ≡ some rl).
        new_redis_locker-key (redis_lock msg.topic) msg.topic c rl
          (some_ok-eq (new_redis_locker (redis_lock msg.topic) msg.topic c) rl e) in
      let read = redis_get_string api key c in
      let (was, kept) = get-string api strings key c o got in
      let before : (codec.as_offset (some_value read.0)).offset ≡ offset_at msg.topic c =
        ap (λ x. (codec.as_offset (some_value x)).offset) got
        ∙ ap (λ x. (codec.as_offset x).offset) (sym was) in
      let after : offset_at msg.topic (hand_over api scripts codec attempts userid msg c).1
          ≡ next_offset (offset_at msg.topic c) msg =
        elim (Bool-cases (is_consumed (offset_at msg.topic c) msg)) [
          | inl old ↦
              rw (hand_over, before, old)
                (ap (λ x. (codec.as_offset x).offset)
                  (release_of-kept strangers msg.topic locker read.1 named ∙ kept key))
          | inr new ↦
              let set = redis_set_string api key (codec.offset_json (offset_info msg)) 0 read.1 in
              let goes : (committed api scripts codec attempts userid msg locker set).0 ≡ goes_on =
                rw (hand_over, before, new) at on in
              let (stored, same) =
                committed-kept strangers attempts userid msg locker set named goes in
              let s =
                set-Stores api strings key (codec.offset_json (offset_info msg)) 0 read.1 stored in
              rw (hand_over, before, new)
                (ap (λ x. (codec.as_offset x).offset) (same ∙ s.here)
                  ∙ ap (λ (i : KafkaMsgInfo). i.offset) (is_codec (offset_info msg)))
        ] in
      (after, rw after (next_offset_le (offset_at msg.topic c) msg))
