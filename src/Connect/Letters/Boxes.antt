-- ===== src/Connect/Letters/Boxes.antt =====
-- A chat message that is kept stands in its letter box.
use axis_chat_server.Prelude.{
  ℕ, suc, ◌+◌, ◌*◌, ◌≡◌, refl, Bool, Bool-cases, true, false, ◌||◌, inl, inr, none, some, is_some,
  Text, ◌=text◌, ◌==◌, if◌then◌else◌, ap, sym, ◌∙◌, arith,
}
use axis_chat_server.Common.Param.{op_friend_msg_send, op_group_msg_send}
use axis_chat_server.Common.Keys.{user_letter_box, group_letter_box, persistent_lock}
use axis_chat_server.Common.Redis.{
  Client, Cluster, Result, ok, err, RedisError, then_result, redis_hset,
}
use axis_chat_server.Common.Redis.Views.{on_client-acts, on_client-kept, seen}
use axis_chat_server.Common.Redis.Effects.{Hashes, Table, no_table, table_at, hset-Ok}
use axis_chat_server.Common.Redis.Answering.{Answers, Reachable, on_client-Reachable, hset-Returns}
use axis_chat_server.Common.Lock.{
  Scripts, RedisLockObj, new_redis_locker, set_expire, acquire, acquired, release, released,
  tolerance, millis_per_second,
}
use axis_chat_server.Common.Lock.Freed.{Locks, holder, release-holder}
use axis_chat_server.Connect.Channel.{Payload}
use axis_chat_server.Db.{TMessage}
use axis_chat_server.Connect.Letters.{
  Codec, goes_on, is_taken, lock_value, group_row, friend_row, acquire_until, put_with, put_in_box,
  keep_msg,
}

pub refused_ok :
    {A : Type 0} (x : RedisError) (a : A) → ◌≡◌ {A = Result RedisError A} (err x) (ok a) → ⊥
refused_ok x a e = cc

module _ {R V : Type 0} (api : Client R V) (scripts : Scripts R) (hashes : Hashes R V api)
    (answers : Answers R V api) (locks : Locks R scripts) (codec : Codec V) where
  -- What redis documents of the tables of other keys.
  pub record Apart : Type 0 where
    pub lock_table :
        (k v j : Text) (x : ℕ) (r : R)
        → (k =text j) ≡ false
        → hashes.table j (scripts.lock_command k v x r).1 ≡ hashes.table j r
    pub del_table :
        (k j : Text) (r : R)
        → (k =text j) ≡ false
        → hashes.table j (scripts.del_command k r).1 ≡ hashes.table j r

  pub acquire-taken :
      (rl : RedisLockObj) (c : Cluster R)
      → Reachable c
      → holder scripts locks rl.key c ≡ none
      → is_taken (acquire scripts rl c).0 ≡ true
  unfolding acquire
  acquire-taken rl c reach free =
      let px = rl.timeout * millis_per_second + tolerance in
      elim (on_client-acts rl.key (scripts.lock_command rl.key rl.value_ px) c) [
        | inl (x, refused, same) ↦
            let (address, r, good) = reach rl.key in
            absurd (refused_ok x (address, r) (sym refused ∙ good))
        | inr (address, r, here, acted, after) ↦
            let open_here : locks.held rl.key r ≡ none =
              sym (ap (seen (locks.held rl.key) none) here) ∙ free in
            let (reply, set) = locks.lock_free rl.key rl.value_ px r open_here in
            ap (λ p. is_taken (acquired p.0)) acted ∙ ap (λ a. is_taken (acquired (ok a))) reply
      ]

  pub release-Returns :
      (rl : RedisLockObj) (c : Cluster R)
      → Reachable c
      → (done : Bool) × ((release scripts rl c).0 ≡ ok done)
  unfolding release
  release-Returns rl c reach = elim (on_client-acts rl.key (scripts.del_command rl.key) c) [
    | inl (x, refused, same) ↦
        let (address, r, good) = reach rl.key in
        absurd (refused_ok x (address, r) (sym refused ∙ good))
    | inr (address, r, here, acted, after) ↦
        let n : ℕ = if is_some (locks.held rl.key r) then 1 else 0 in
        (
          n == 1,
          ap (λ p. released p.0) acted ∙ ap (λ a. released (ok a)) (locks.del_held rl.key r).0,
        )
  ]

  -- What keeping a message leaves: it stands in its box under its snow id, the box's other messages are
  -- as they were, and the box's lock is free.
  pub record InBox (box snow_id body : Text) (c c' : Cluster R) : Type 0 where
    pub fields :
        (g : Text)
        → (table_at api hashes box c').field g
          ≡ (if snow_id =text g then some body else (table_at api hashes box c).field g)
    pub unlocked : holder scripts locks (persistent_lock box) c' ≡ none

  locked-InBox :
      Apart
      → (box snow_id body : Text) (lock : RedisLockObj) (c : Cluster R)
      → lock.key ≡ persistent_lock box
      → (persistent_lock box =text box) ≡ false
      → Reachable c
      → InBox box snow_id body c
          (release scripts lock (redis_hset api box snow_id body (acquire scripts lock c).1).1).1
  unfolding acquire release redis_hset
  locked-InBox laws box snow_id body lock c named apart reach =
      let px = lock.timeout * millis_per_second + tolerance in
      let c1 = (acquire scripts lock c).1 in
      let reach1 : Reachable c1 =
        on_client-Reachable lock.key (scripts.lock_command lock.key lock.value_ px) c reach in
      let (t, good, reach2) = hset-Returns api answers box snow_id body c1 reach1 in
      let c2 = (redis_hset api box snow_id body c1).1 in
      let (size, fields) = hset-Ok api hashes box snow_id body c1 good in
      let other : (lock.key =text box) ≡ false = ap (λ k. k =text box) named ∙ apart in
      let kept : table_at api hashes box c1 ≡ table_at api hashes box c =
        on_client-kept (hashes.table box) no_table box lock.key
          (scripts.lock_command lock.key lock.value_ px) c
          (λ r. laws.lock_table lock.key lock.value_ box px r other) in
      let kept3 : table_at api hashes box (release scripts lock c2).1 ≡ table_at api hashes box c2 =
        on_client-kept (hashes.table box) no_table box lock.key (scripts.del_command lock.key) c2
          (λ r. laws.del_table lock.key box r other) in
      let (done, freed) = release-Returns lock c2 reach2 in
      record {
        fields = λ g.
            ap (λ (t : Table). t.field g) kept3
            ∙ fields g
            ∙ ap (λ (t : Table). if snow_id =text g then some body else t.field g) kept;
        unlocked =
            ap (λ k. holder scripts locks k (release scripts lock c2).1) (sym named)
            ∙ (release-holder scripts locks lock c2 done freed).1;
      }

  put_with-InBox :
      Apart
      → (attempts : ℕ) (box snow_id body : Text) (x : Result RedisError RedisLockObj)
        (c : Cluster R) (rl : RedisLockObj)
      → x ≡ ok rl
      → rl.key ≡ persistent_lock box
      → (persistent_lock box =text box) ≡ false
      → Reachable c
      → holder scripts locks (persistent_lock box) c ≡ none
      → ((put_with api scripts codec (suc attempts) box snow_id body x c).0 ≡ goes_on)
        × InBox box snow_id body c
            (put_with api scripts codec (suc attempts) box snow_id body x c).1
  unfolding acquire_until set_expire
  put_with-InBox laws attempts box snow_id body x c rl e named apart reach free =
      let lock = set_expire 60 rl in
      let took : is_taken (acquire scripts lock c).0 ≡ true =
        acquire-taken lock c reach (ap (λ k. holder scripts locks k c) named ∙ free) in
      rw (e, acquire_until, took)
        (refl, locked-InBox laws box snow_id body lock c named apart reach)

  -- the letter box of a chat message, and what it holds for the message
  abbrev pub box_of : ℕ → Payload → Text
  box_of userid m =
      if m.op == op_group_msg_send
      then group_letter_box (codec.as_chat m).group_id
      else user_letter_box userid

  abbrev pub row_of : ℕ → Payload → TMessage
  row_of userid m =
      if m.op == op_group_msg_send
      then group_row (codec.as_chat m)
      else friend_row userid (codec.as_chat m)

  put_in_box-InBox :
      Apart
      → (attempts : ℕ) (box snow_id body : Text) (c : Cluster R)
      → (persistent_lock box =text box) ≡ false
      → Reachable c
      → holder scripts locks (persistent_lock box) c ≡ none
      → ((put_in_box api scripts codec (suc attempts) box snow_id body c).0 ≡ goes_on)
        × InBox box snow_id body c
            (put_in_box api scripts codec (suc attempts) box snow_id body c).1
  unfolding put_in_box new_redis_locker
  put_in_box-InBox laws attempts box snow_id body c apart reach free =
      let (address, r, good) = reach (persistent_lock box) in
      let rl : RedisLockObj = record {
        timeout = 0;
        key = persistent_lock box;
        value_ = lock_value;
      } in
      put_with-InBox laws attempts box snow_id body
        (new_redis_locker (persistent_lock box) lock_value c) c rl (ap (then_result rl) good) refl
        apart reach free

  -- A chat message that is kept, when the servers are reachable and answer and the lock of its letter box
  -- is free: the first attempt to lock is enough, and then the letter box of the group or of the user has
  -- the message under its snow id and is as it was at every other one, and its lock is free again. It is
  -- assumed that the scripts of a lock leave the tables of other keys.
  pub keep_msg-InBox :
      Apart
      → (attempts userid : ℕ) (m : Payload) (c : Cluster R)
      → ((m.op == op_group_msg_send) || (m.op == op_friend_msg_send)) ≡ true
      → Reachable c
      → holder scripts locks (persistent_lock (box_of userid m)) c ≡ none
      → ((keep_msg api scripts codec (suc attempts) userid m c).0 ≡ goes_on)
        × InBox
            (box_of userid m)
            (codec.as_chat m).snow_id
            (codec.message_json (row_of userid m))
            c
            (keep_msg api scripts codec (suc attempts) userid m c).1
  unfolding keep_msg
  keep_msg-InBox laws attempts userid m c chat reach free =
      elim (Bool-cases (m.op == op_group_msg_send)) [
        | inl to_group ↦ rw (to_group) (
            put_in_box-InBox laws attempts (group_letter_box (codec.as_chat m).group_id)
              (codec.as_chat m).snow_id (codec.message_json (group_row (codec.as_chat m))) c refl
              reach (rw to_group at free))
        | inr other ↦
            let to_friend : (m.op == op_friend_msg_send) ≡ true = ground arith in
            rw (other, to_friend)
              (put_in_box-InBox laws attempts (user_letter_box userid) (codec.as_chat m).snow_id
                (codec.message_json (friend_row userid (codec.as_chat m))) c refl reach
                (rw other at free))
      ]
