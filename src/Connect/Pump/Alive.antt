-- ===== src/Connect/Pump/Alive.antt =====
-- When writePump panics: a second write to the web socket at the same time.
use axis_chat_server.Prelude.{
  ℕ, ◌≡◌, refl, arith, Bool, ◌&&◌, not, is_some, true, false, Option, none, some, List, [], ◌∷◌,
  Text, sym, subst,
}
use axis_chat_server.Common.Keys.{user_letter_box, group_letter_box, persistent_lock}
use axis_chat_server.Common.Redis.{
  Client, Cluster, Result, ok, err, RedisError, redis_del_string, redis_hget_all,
}
use axis_chat_server.Common.Redis.Answering.{Reachable, on_client-Reachable}
use axis_chat_server.Common.Lock.{Scripts, RedisLockObj, set_expire}
use axis_chat_server.Connect.Channel.{Payload, Message}
use axis_chat_server.Connect.Letters.{
  Codec, Pump, goes_on, returned, waiting, crashed, lock_value, and_then,
}
use axis_chat_server.Connect.Letters.Alive.{
  Alive, and_then-Alive, new_redis_locker-ok, release-Reachable, acquire_until-Reachable,
  hand_over-Alive,
}
use axis_chat_server.Connect.Pump.{
  Frame, Writers, nobody, writers_step, is_write, clashes, Answer, end_write, reader_writes,
  write_begins, write_ends, Pumping, Owner, PumpEvent, status_event, status_closed, msg_event,
  msg_closed, commit_tick, ping_tick, no_writer, close_failed, written, until_locked, saved_box,
  save_locked, save_with, save_box, save_groups, save_chat_data_to_db, framed_if, close_message,
  after_save, after_panic, pump_step, write_pump,
}
use axis_chat_server.Db.{Gorm}

abbrev pub busy_after : PumpEvent → Bool → Bool
busy_after (status_event msg) busy = busy
busy_after status_closed busy = busy
busy_after (msg_event msg answer) busy = busy
busy_after (msg_closed sent) busy = busy
busy_after commit_tick busy = busy
busy_after (ping_tick sent) busy = busy
busy_after reader_writes busy = busy
busy_after (write_begins i) busy = true
busy_after (write_ends sent) busy = false

-- No write begins while another has begun and not ended; `busy` is whether one has.
abbrev pub quiet : List PumpEvent → Bool → Bool
quiet [] busy = true
quiet (event_ ∷ events) busy =
    not (is_write event_ && busy) && quiet events (busy_after event_ busy)

writing-after :
    (event_ : PumpEvent) (v : Writers) (busy : Bool)
    → (is_some v.writing ≡ true → busy ≡ true)
    → is_some (writers_step event_ v).writing ≡ true
    → busy_after event_ busy ≡ true
unfolding writers_step
writing-after (status_event msg) v busy seen = seen
writing-after status_closed v busy seen = seen
writing-after (msg_event msg answer) v busy seen = seen
writing-after (msg_closed sent) v busy seen = seen
writing-after commit_tick v busy seen = seen
writing-after (ping_tick sent) v busy seen = seen
writing-after reader_writes v busy seen = seen
writing-after (write_begins i) v busy seen = λ e. refl
writing-after (write_ends sent) v busy seen = λ e. cc

calm-first : (a b : Bool) → (not a && b) ≡ true → (a ≡ false) × (b ≡ true)
calm-first true b e = cc
calm-first false b e = (refl, e)

no_clash-of : (a busy c : Bool) → (a && busy) ≡ false → (c ≡ true → busy ≡ true) → (a && c) ≡ false
no_clash-of false busy c e seen = refl
no_clash-of true busy false e seen = refl
no_clash-of true busy true e seen = absurd (ground (arith, seen refl))

quiet-step :
    (event_ : PumpEvent) (events : List PumpEvent) (v : Writers) (busy : Bool)
    → (is_some v.writing ≡ true → busy ≡ true)
    → quiet (event_ ∷ events) busy ≡ true
    → (clashes event_ v ≡ false)
      × (busy' : Bool) × (quiet events busy' ≡ true)
      × (is_some (writers_step event_ v).writing ≡ true → busy' ≡ true)
quiet-step event_ events v busy seen calm =
    let (free, rest) =
      calm-first (is_write event_ && busy) (quiet events (busy_after event_ busy)) calm in
    (
      no_clash-of (is_write event_) busy (is_some v.writing) free seen,
      busy_after event_ busy,
      rest,
      writing-after event_ v busy seen,
    )

module _ {R V D : Type 0} (api : Client R V) (scripts : Scripts R) (codec : Codec V)
    (gorm : Gorm D) where
  -- the servers are reachable
  abbrev pub Served : Pumping R D → Type 0
  Served w = Reachable w.cache

  until_locked-Reachable :
      (lock : Bool) (attempts : ℕ) (rl : RedisLockObj) (c c' : Cluster R)
      → Reachable c
      → until_locked api scripts codec gorm lock attempts rl c ≡ some c'
      → Reachable c'
  until_locked-Reachable true attempts rl c c' reach e =
      let same : c ≡ c' = cc in subst (λ x. Reachable x) same reach
  until_locked-Reachable false attempts rl c c' reach e =
      acquire_until-Reachable scripts attempts rl c c' reach e

  saved_box-Alive :
      (box : Text) (rl : RedisLockObj) (q : Result RedisError (List (Text × Text)) × Cluster R)
      (w : Pumping R D)
      → Reachable q.1
      → Alive Served (saved_box api scripts codec gorm box rl q w)
  unfolding redis_del_string
  saved_box-Alive box rl (err e, c) w reach = (refl, reach)
  saved_box-Alive box rl (ok entries, c) w reach = (
    refl,
    release-Reachable scripts rl (redis_del_string api box c).1
        (on_client-Reachable box (api.del_ box) c reach),
  )

  save_locked-Alive :
      (box : Text) (rl : RedisLockObj) (o : Option (Cluster R)) (w : Pumping R D)
      → Served w
      → ((c : Cluster R) → o ≡ some c → Reachable c)
      → Alive Served (save_locked api scripts codec gorm box rl o w)
  unfolding redis_hget_all
  save_locked-Alive box rl none w reach later = (refl, reach)
  save_locked-Alive box rl (some c) w reach later =
      saved_box-Alive box rl (redis_hget_all api box c) (record w { cache = c })
        (on_client-Reachable box (api.hget_all box) c (later c refl))

  save_box-Alive :
      (lock : Bool) (attempts : ℕ) (box : Text) (refused : Pump) (w : Pumping R D)
      → Served w
      → Alive Served (save_box api scripts codec gorm lock attempts box refused w)
  unfolding save_box
  save_box-Alive lock attempts box refused w reach =
      let obj =
        set_expire 60 (record { timeout = 0; key = persistent_lock box; value_ = lock_value }) in
      subst (λ x. Alive Served (save_with api scripts codec gorm lock attempts box refused x w))
        (sym (new_redis_locker-ok (persistent_lock box) lock_value w.cache reach))
        (save_locked-Alive box obj (until_locked api scripts codec gorm lock attempts obj w.cache) w
          reach (λ c e. until_locked-Reachable lock attempts obj w.cache c reach e))

  save_groups-and_then :
      (lock : Bool) (attempts id : ℕ) (group_ids : List ℕ) (w : Pumping R D)
      → save_groups api scripts codec gorm lock attempts (id ∷ group_ids) w
        ≡ and_then
            (save_box api scripts codec gorm lock attempts (group_letter_box id) crashed w)
            (save_groups api scripts codec gorm lock attempts group_ids)
  unfolding save_groups
  save_groups-and_then lock attempts id group_ids w =
      step (save_box api scripts codec gorm lock attempts (group_letter_box id) crashed w)
    where
      step :
          (p : Pump × Pumping R D)
          → (elim p.0 [
            | goes_on ↦ save_groups api scripts codec gorm lock attempts group_ids p.1
            | returned ↦ p
            | waiting ↦ p
            | crashed ↦ p
          ])
            ≡ and_then p (save_groups api scripts codec gorm lock attempts group_ids)
      step (goes_on, w) = refl
      step (returned, w) = refl
      step (waiting, w) = refl
      step (crashed, w) = refl

  save_groups-Alive :
      (lock : Bool) (attempts : ℕ) (group_ids : List ℕ) (w : Pumping R D)
      → Served w
      → Alive Served (save_groups api scripts codec gorm lock attempts group_ids w)
  unfolding save_groups
  save_groups-Alive lock attempts [] w reach = (refl, reach)
  save_groups-Alive lock attempts (id ∷ group_ids) w reach =
      subst (Alive Served) (sym (save_groups-and_then lock attempts id group_ids w)) (
        and_then-Alive Served
          (save_box api scripts codec gorm lock attempts (group_letter_box id) crashed w)
          (save_groups api scripts codec gorm lock attempts group_ids)
          (save_box-Alive lock attempts (group_letter_box id) crashed w reach)
          (λ w' good. save_groups-Alive lock attempts group_ids w' good))

  save_chat_data_to_db-Alive :
      (attempts : ℕ) (ch : Owner) (w : Pumping R D)
      → Served w
      → Alive Served (save_chat_data_to_db api scripts codec gorm attempts ch w)
  unfolding save_chat_data_to_db
  save_chat_data_to_db-Alive attempts ch w reach =
      and_then-Alive Served
        (save_box api scripts codec gorm false attempts (user_letter_box ch.userid) returned w)
        (save_groups api scripts codec gorm true attempts ch.group_ids)
        (save_box-Alive false attempts (user_letter_box ch.userid) returned w reach)
        (λ w' good. save_groups-Alive true attempts ch.group_ids w' good)

  after_save-Alive :
      (p : Pump × Pumping R D) → Alive Served p → Alive Served (after_save api scripts codec gorm p)
  after_save-Alive (goes_on, w) alive = alive
  after_save-Alive (returned, w) alive = alive
  after_save-Alive (waiting, w) alive = alive
  after_save-Alive (crashed, w) alive = alive

  framed_if-Served :
      (sent : Bool) (frame : Frame) (w : Pumping R D)
      → Served w
      → Served (framed_if api scripts codec gorm sent frame w)
  framed_if-Served true frame w reach = reach
  framed_if-Served false frame w reach = reach

  end_write-Served :
      (sent : Bool) (o : Option Frame) (w : Pumping R D)
      → Served w
      → Served (end_write api scripts codec gorm sent o w)
  end_write-Served sent none w reach = reach
  end_write-Served sent (some frame) w reach = framed_if-Served sent frame w reach

  pump_step-Alive :
      (attempts : ℕ) (ch : Owner) (event_ : PumpEvent) (v : Writers) (w : Pumping R D)
      → Served w
      → Alive Served (pump_step api scripts codec gorm attempts ch event_ v w)
  unfolding pump_step
  pump_step-Alive attempts ch (status_event msg) v w reach = (refl, reach)
  pump_step-Alive attempts ch status_closed v w reach = (refl, reach)
  pump_step-Alive attempts ch (msg_event msg no_writer) v w reach = (refl, reach)
  pump_step-Alive attempts ch (msg_event msg close_failed) v w reach = (refl, reach)
  pump_step-Alive attempts ch (msg_event msg written) v w reach =
      hand_over-Alive api scripts codec attempts ch.userid msg w.cache reach
  pump_step-Alive attempts ch (msg_closed sent) v w reach =
      (refl, framed_if-Served sent close_message w reach)
  pump_step-Alive attempts ch commit_tick v w reach =
      after_save-Alive (save_chat_data_to_db api scripts codec gorm attempts ch w)
        (save_chat_data_to_db-Alive attempts ch w reach)
  pump_step-Alive attempts ch (ping_tick true) v w reach = (refl, reach)
  pump_step-Alive attempts ch (ping_tick false) v w reach = (refl, reach)
  pump_step-Alive attempts ch reader_writes v w reach = (refl, reach)
  pump_step-Alive attempts ch (write_begins i) v w reach = (refl, reach)
  pump_step-Alive attempts ch (write_ends sent) v w reach =
      (refl, end_write-Served sent v.writing w reach)

  loop-Alive :
      (attempts : ℕ) (ch : Owner) (events : List PumpEvent) (v : Writers) (w : Pumping R D)
      (busy : Bool)
      → Served w
      → (is_some v.writing ≡ true → busy ≡ true)
      → quiet events busy ≡ true
      → Alive Served (write_pump api scripts codec gorm attempts ch events v w)
  unfolding write_pump
  loop-Alive attempts ch [] v w busy reach seen calm = (refl, reach)
  loop-Alive attempts ch (event_ ∷ events) v w busy reach seen calm =
      let (no_clash, busy', calm', seen') = quiet-step event_ events v busy seen calm in
      let step = pump_step api scripts codec gorm attempts ch event_ v w in
      let v' = writers_step event_ v in
      rw no_clash (
        next v' step (pump_step-Alive attempts ch event_ v w reach)
          (λ good. loop-Alive attempts ch events v' step.1 busy' good seen' calm'))
    where
      next :
          (v' : Writers) (p : Pump × Pumping R D)
          → Alive Served p
          → (Served p.1
              → Alive Served (write_pump api scripts codec gorm attempts ch events v' p.1))
          → Alive Served (elim p.0 [
            | goes_on ↦ write_pump api scripts codec gorm attempts ch events v' p.1
            | returned ↦ save_chat_data_to_db api scripts codec gorm attempts ch p.1
            | waiting ↦ p
            | crashed ↦
                after_panic api scripts codec gorm
                  (save_chat_data_to_db api scripts codec gorm attempts ch p.1)
          ])
      next v' (goes_on, w) (f, good) rest = rest good
      next v' (returned, w) (f, good) rest = save_chat_data_to_db-Alive attempts ch w good
      next v' (waiting, w) alive rest = alive
      next v' (crashed, w) (f, good) rest = absurd cc

  -- writePump, with any events, answers of the web socket, replies of redis and of the database, and any
  -- number of attempts for each lock, while the ring gives a server for every key: it does not panic, and
  -- the ring still gives a server for every key, as long as no write to the web socket begins while another
  -- has begun and not ended. But a status message and a chat message in a row are enough for a panic,
  -- when the chat message comes after the goroutine of the status message has begun to write and before
  -- it has ended.
  pub write_pump-Alive :
      (attempts : ℕ) (ch : Owner) (events : List PumpEvent) (w : Pumping R D) (status : Payload)
      (msg : Message) (answer : Answer)
      → Served w
      → quiet events false ≡ true
      → Alive Served (write_pump api scripts codec gorm attempts ch events nobody w)
        × ((write_pump api scripts codec gorm attempts ch
              (status_event status ∷ write_begins 0 ∷ msg_event msg answer ∷ events)
              nobody
              w).0
            ≡ crashed)
  unfolding write_pump writers_step pump_step
  write_pump-Alive attempts ch events w status msg answer reach calm =
      (loop-Alive attempts ch events nobody w false reach (λ e. e) calm, refl)
