-- ===== src/Connect/Pump.antt =====
-- connect/server_ws.go and connect/utils.go: the loop of writePump, one event a step, and
-- saveChatDataToDb. The web socket's answers are arguments. The web socket library allows one write at a
-- time and panics when it notices two. Each status message is written by a goroutine of its own, whose write
-- begins and ends by events, so that they fall between the steps of the loop in any order; a write of the
-- loop itself is one step, and clashes with one that has begun and not ended.
pub mod Saved
pub mod Alive
pub mod Unlocked
pub mod Freed
pub mod Tests
use axis_chat_server.Prelude.{
  ℕ, zero, suc, Bool, true, false, ◌&&◌, not, Option, none, some, is_some, List, [], ◌∷◌, ◌++◌, map,
  get_elem?, take, drop, Text, leb, ◌==◌, if◌then◌else◌,
}
use axis_chat_server.Common.Param.{
  op_friend_msg_send, op_group_msg_send, op_group_oline_user_count_send, op_group_info_send,
  op_friend_online_send, op_friend_off_online_send,
}
use axis_chat_server.Common.Keys.{
  kafka_topic_offset, redis_lock, user_letter_box, group_letter_box, persistent_lock,
}
use axis_chat_server.Common.Redis.{
  Client, Cluster, Result, ok, err, RedisError, redis_get_string, redis_set_string,
  redis_del_string, redis_hset, redis_hget_all,
}
use axis_chat_server.Common.Lock.{
  Scripts, RedisLockObj, new_redis_locker, set_expire, acquire, release,
}
use axis_chat_server.Connect.Channel.{Payload, Message}
use axis_chat_server.Logic.Data.{friend, group}
use axis_chat_server.Db.{Gorm, TMessage, save_msg_in_batches}
use axis_chat_server.Connect.Letters.{
  Codec, Pump, goes_on, returned, waiting, crashed, lock_value, acquire_until, and_then, hand_over,
}

-- The event that DealWebSocketResp names for a message, or nothing.
abbrev pub event_name : ℕ → Option Text
event_name op =
    if op == op_group_msg_send
    then some (b'g' ∷ b'r' ∷ b'o' ∷ b'u' ∷ b'p' ∷ b'M' ∷ b's' ∷ b'g' ∷ [])
    else if op == op_group_info_send
    then some (b'g' ∷ b'r' ∷ b'o' ∷ b'u' ∷ b'p' ∷ b'I' ∷ b'n' ∷ b'f' ∷ b'o' ∷ [])
    else if op == op_group_oline_user_count_send
    then some (b'g' ∷ b'r' ∷ b'o' ∷ b'u' ∷ b'p' ∷ b'C' ∷ b'o' ∷ b'u' ∷ b'n' ∷ b't' ∷ [])
    else if op == op_friend_off_online_send
    then some (b'f' ∷ b'r' ∷ b'i' ∷ b'e' ∷ b'n' ∷ b'd' ∷ b'O' ∷ b'f' ∷ b'f' ∷ [])
    else if op == op_friend_online_send
    then some (b'f' ∷ b'r' ∷ b'i' ∷ b'e' ∷ b'n' ∷ b'd' ∷ b'O' ∷ b'n' ∷ [])
    else if op == op_friend_msg_send
    then some (b'f' ∷ b'r' ∷ b'i' ∷ b'e' ∷ b'n' ∷ b'd' ∷ b'M' ∷ b's' ∷ b'g' ∷ [])
    else none

-- What is written to the web socket: the JSON of an event's name and a message, or no bytes.
pub data Frame : Type 0 where
  event : (name body : Text) → Frame
  blank : Frame
  close_message : Frame
  ping_message : Frame
  ok_message : Frame

abbrev pub deal_web_socket_resp : Payload → Frame
deal_web_socket_resp msg = elim (event_name msg.op) [
  | none ↦ blank
  | some name ↦ event name msg.body
]

-- What the web socket answers to a message: no writer, an error of Close, or none. An error of Write is
-- overwritten by what Close answers.
pub data Answer : Type 0 where
  no_writer : Answer
  close_failed : Answer
  written : Answer

-- What the loop receives, and what the goroutines beside it do: the one of readPump is about to answer
-- "ok"; the n-th that waits begins to write; the one that writes ends, with whether it has written.
pub data PumpEvent : Type 0 where
  status_event : Payload → PumpEvent
  status_closed : PumpEvent
  msg_event : Message → Answer → PumpEvent
  -- whether the close message was written
  msg_closed : Bool → PumpEvent
  commit_tick : PumpEvent
  -- whether the ping was written
  ping_tick : Bool → PumpEvent
  reader_writes : PumpEvent
  write_begins : ℕ → PumpEvent
  write_ends : Bool → PumpEvent

-- The goroutines that write to the web socket beside the loop, each by its frame: those that have not begun,
-- and the one that has begun and not ended.
pub record Writers : Type 0 where
  pub started : List Frame
  pub writing : Option Frame

abbrev pub nobody : Writers
nobody = record { started = []; writing = none }

abbrev pub start : Frame → Writers → Writers
start frame v = record v { started = v.started ++ frame ∷ [] }

abbrev pub begin_write : ℕ → Writers → Writers
begin_write i v = elim (get_elem? v.started i) [
  | none ↦ v
  | some frame ↦ record {
    started = take i v.started ++ drop (suc i) v.started;
    writing = some frame;
  }
]

unfoldable pub writers_step : PumpEvent → Writers → Writers
writers_step (status_event msg) v = start (deal_web_socket_resp msg) v
writers_step status_closed v = start close_message v
writers_step (msg_event msg answer) v = v
writers_step (msg_closed sent) v = v
writers_step commit_tick v = v
writers_step (ping_tick sent) v = v
writers_step reader_writes v = start ok_message v
writers_step (write_begins i) v = begin_write i v
writers_step (write_ends sent) v = record v { writing = none }

-- whether an event is a write
abbrev pub is_write : PumpEvent → Bool
is_write (status_event msg) = false
is_write status_closed = false
is_write (msg_event msg answer) = true
is_write (msg_closed sent) = true
is_write commit_tick = false
is_write (ping_tick sent) = true
is_write reader_writes = false
is_write (write_begins i) = true
is_write (write_ends sent) = false

-- whether a write is the second at the same time
abbrev pub clashes : PumpEvent → Writers → Bool
clashes event_ v = is_write event_ && is_some v.writing

pub record Pumping (R D : Type 0) : Type 0 where
  pub cache : Cluster R
  pub db : D
  pub frames : List Frame

-- the fields of the connection: its user, and the ids of its groups
pub record Owner : Type 0 where
  pub userid : ℕ
  pub group_ids : List ℕ

module _ {R V D : Type 0} (api : Client R V) (scripts : Scripts R) (codec : Codec V)
    (gorm : Gorm D) where
  abbrev pub on_cache : (Cluster R → Pump × Cluster R) → Pumping R D → Pump × Pumping R D
  on_cache step w = let (p, c) = step w.cache in (p, record w { cache = c })

  -- `for !lock`, with what the variable holds
  abbrev pub until_locked : Bool → ℕ → RedisLockObj → Cluster R → Option (Cluster R)
  until_locked true attempts rl c = some c
  until_locked false attempts rl c = acquire_until scripts attempts rl c

  -- the rows of a letter box go to the database, the box is deleted, and the lock released
  abbrev pub saved_box :
      Text
      → RedisLockObj
      → Result RedisError (List (Text × Text)) × Cluster R
      → Pumping R D
      → Pump × Pumping R D
  saved_box box rl (err e, c) w = (returned, record w { cache = c })
  saved_box box rl (ok entries, c) w = (
    goes_on,
    record w {
      cache = (release scripts rl (redis_del_string api box c).1).1;
      db = save_msg_in_batches gorm (map (λ (e : Text × Text). codec.as_message e.1) entries) w.db;
    },
  )

  abbrev pub save_locked :
      Text → RedisLockObj → Option (Cluster R) → Pumping R D → Pump × Pumping R D
  save_locked box rl none w = (waiting, w)
  save_locked box rl (some c) w =
      saved_box box rl (redis_hget_all api box c) (record w { cache = c })

  -- one letter box, with the lock object that NewRedisLocker gives; `refused` is what its error does
  abbrev pub save_with :
      Bool → ℕ → Text → Pump → Result RedisError RedisLockObj → Pumping R D → Pump × Pumping R D
  save_with lock attempts box refused (err e) w = (refused, w)
  save_with lock attempts box refused (ok rl) w =
      let obj = set_expire 60 rl in save_locked box obj (until_locked lock attempts obj w.cache) w

  unfoldable pub save_box : Bool → ℕ → Text → Pump → Pumping R D → Pump × Pumping R D
  unfolding acquire_until
  save_box lock attempts box refused w =
      save_with lock attempts box refused
        (new_redis_locker (persistent_lock box) lock_value w.cache) w

  -- The loop over the groups. `lock` is true from the user's letter box on.
  unfoldable pub save_groups : Bool → ℕ → List ℕ → Pumping R D → Pump × Pumping R D
  unfolding save_box
  save_groups lock attempts [] w = (goes_on, w)
  save_groups lock attempts (id ∷ group_ids) w =
      let step = save_box lock attempts (group_letter_box id) crashed w in
      let rest = save_groups lock attempts group_ids step.1 in
      elim step.0 [ goes_on ↦ rest | returned ↦ step | waiting ↦ step | crashed ↦ step ]

  unfoldable pub save_chat_data_to_db : ℕ → Owner → Pumping R D → Pump × Pumping R D
  unfolding save_box save_groups
  save_chat_data_to_db attempts ch w =
      and_then (save_box false attempts (user_letter_box ch.userid) returned w)
        (save_groups true attempts ch.group_ids)

  abbrev pub framed : Frame → Pumping R D → Pumping R D
  framed frame w = record w { frames = w.frames ++ frame ∷ [] }

  abbrev pub framed_if : Bool → Frame → Pumping R D → Pumping R D
  framed_if true frame w = framed frame w
  framed_if false frame w = w

  -- the end of a goroutine's write, which does not end the loop
  abbrev pub end_write : Bool → Option Frame → Pumping R D → Pumping R D
  end_write sent none w = w
  end_write sent (some frame) w = framed_if sent frame w

  abbrev pub msg_step : ℕ → Owner → Message → Answer → Pumping R D → Pump × Pumping R D
  msg_step attempts ch msg no_writer w = (returned, w)
  msg_step attempts ch msg close_failed w = (returned, w)
  msg_step attempts ch msg written w =
      on_cache (hand_over api scripts codec attempts ch.userid msg)
        (framed (deal_web_socket_resp msg.value) w)

  -- the end of a save is not the end of the loop
  abbrev pub after_save : Pump × Pumping R D → Pump × Pumping R D
  after_save (goes_on, w) = (goes_on, w)
  after_save (returned, w) = (goes_on, w)
  after_save (waiting, w) = (waiting, w)
  after_save (crashed, w) = (crashed, w)

  -- one event, with no clash; for a status message the loop only starts a goroutine
  unfoldable pub pump_step : ℕ → Owner → PumpEvent → Writers → Pumping R D → Pump × Pumping R D
  unfolding hand_over save_chat_data_to_db
  pump_step attempts ch (status_event msg) v w = (goes_on, w)
  pump_step attempts ch status_closed v w = (goes_on, w)
  pump_step attempts ch (msg_event msg answer) v w = msg_step attempts ch msg answer w
  pump_step attempts ch (msg_closed sent) v w = (returned, framed_if sent close_message w)
  pump_step attempts ch commit_tick v w = after_save (save_chat_data_to_db attempts ch w)
  pump_step attempts ch (ping_tick true) v w = (goes_on, framed ping_message w)
  pump_step attempts ch (ping_tick false) v w = (returned, w)
  pump_step attempts ch reader_writes v w = (goes_on, w)
  pump_step attempts ch (write_begins i) v w = (goes_on, w)
  pump_step attempts ch (write_ends sent) v w = (goes_on, end_write sent v.writing w)

  -- A panic runs the deferred save too, and goes on after it.
  abbrev pub after_panic : Pump × Pumping R D → Pump × Pumping R D
  after_panic (goes_on, w) = (crashed, w)
  after_panic (returned, w) = (crashed, w)
  after_panic (waiting, w) = (waiting, w)
  after_panic (crashed, w) = (crashed, w)

  -- The loop over the events that come, and the save that is deferred to its end. A clash ends the
  -- process: it may be a goroutine that panics, which runs no deferred save.
  unfoldable pub write_pump :
      ℕ → Owner → List PumpEvent → Writers → Pumping R D → Pump × Pumping R D
  unfolding pump_step writers_step save_chat_data_to_db
  write_pump attempts ch [] v w = (waiting, w)
  write_pump attempts ch (event_ ∷ events) v w =
      let step = pump_step attempts ch event_ v w in
      let rest = write_pump attempts ch events (writers_step event_ v) step.1 in
      let next : Pump × Pumping R D = elim step.0 [
        | goes_on ↦ rest
        | returned ↦ save_chat_data_to_db attempts ch step.1
        | waiting ↦ step
        | crashed ↦ after_panic (save_chat_data_to_db attempts ch step.1)
      ] in
      if clashes event_ v then (crashed, w) else next
