-- ===== src/Connect/Pump/Tests.antt =====
-- Handing over a message and saving the letter boxes, on one server in memory.
use axis_chat_server.Prelude.{
  ℕ, ◌+◌, ◌≤◌, ◌≡◌, refl, Bool, true, false, Option, none, some, is_some, List, [], ◌∷◌, Text,
  ◌=text◌, if◌then◌else◌, ap, sym, ◌∙◌,
}
use axis_chat_server.Prelude.TextMap.{lookup}
use axis_chat_server.Common.Param.{op_group_msg_send}
use axis_chat_server.Common.Keys.{
  kafka_topic_offset, user_letter_box, group_letter_box, persistent_lock,
}
use axis_chat_server.Common.Redis.{Cluster, Reply, value, nil, ok, redis_get_string}
use axis_chat_server.Common.Redis.Effects.{table_at}
use axis_chat_server.Common.Redis.Tests.{
  Server, client, server_hashes, server_strings, server_answers, cluster_of, cluster_of-Reachable,
  nothing, at, at_self, apart, as_table, no_listing,
}
use axis_chat_server.Common.Lock.{
  Scripts, RedisLockObj, ok_text, acquire, release, new_redis_locker,
}
use axis_chat_server.Common.Lock.Freed.{Locks, holder, release-acquire}
use axis_chat_server.Connect.Channel.{Payload, Message}
use axis_chat_server.Logic.Data.{friend}
use axis_chat_server.Db.{Gorm, TMessage}
use axis_chat_server.Db.Tests.{no_table}
use axis_chat_server.Connect.Letters.{
  Codec, Chat, KafkaMsgInfo, goes_on, returned, crashed, hand_over, keep_msg,
}
use axis_chat_server.Connect.Letters.Kept.{Strangers}
use axis_chat_server.Connect.Letters.Offsets.{offset_at, next_offset, hand_over-Committed}
use axis_chat_server.Connect.Letters.Boxes.{Apart, InBox, keep_msg-InBox}
use axis_chat_server.Connect.Letters.Alive.{Alive}
use axis_chat_server.Connect.Pump.{
  nobody, write_begins, write_ends, Pumping, Owner, PumpEvent, status_event, msg_event, commit_tick,
  ping_tick, written, save_box, save_chat_data_to_db, write_pump,
}
use axis_chat_server.Connect.Pump.Freed.{OtherLocks, AllFree, save_chat_data_to_db-AllFree}
use axis_chat_server.Connect.Pump.Alive.{quiet, Served, write_pump-Alive}
use axis_chat_server.Connect.Pump.Saved.{Emptying, Saved}
use axis_chat_server.Connect.Pump.Unlocked.{AllEmpty, save_own-Saved, save_chat_data_to_db-AllEmpty}

abbrev Redis : Type 0
Redis = Server KafkaMsgInfo

abbrev lock_at : Option Text → Text → Text → Redis → Reply Text × Redis
lock_at none k v r = (value ok_text, record r { locks = at k (some v) r.locks })
lock_at (some other) k v r = (nil, r)

abbrev scripts : Scripts Redis
scripts = record {
  lock_command = λ k v x r. lock_at (r.locks k) k v r;
  del_command =
      λ k r. (value (if is_some (r.locks k) then 1 else 0), record r { locks = at k none r.locks });
}

abbrev locks : Locks Redis scripts
locks = record {
  held = λ k r. r.locks k;
  lock_free = λ k v x r e. rw e (refl, at_self k (some v) r.locks);
  lock_held = λ k v other x r e. rw e refl;
  del_held = λ k r. (refl, at_self k none r.locks);
}

lock_at-strings :
    (o : Option Text) (k v : Text) (r : Redis) → (lock_at o k v r).1.strings ≡ r.strings
lock_at-strings none k v r = refl
lock_at-strings (some other) k v r = refl

lock_at-tables : (o : Option Text) (k v : Text) (r : Redis) → (lock_at o k v r).1.tables ≡ r.tables
lock_at-tables none k v r = refl
lock_at-tables (some other) k v r = refl

abbrev no_offset : KafkaMsgInfo
no_offset = record { topic = []; partition = 0; offset = 0 }

abbrev offset_of : Option KafkaMsgInfo → KafkaMsgInfo
offset_of none = no_offset
offset_of (some i) = i

abbrev text_row : Text → TMessage
text_row content = record {
  belong = 1;
  snow_id = [];
  type_ = friend;
  content = content;
  from_a = 1;
  to_b = 2;
  message_type = [];
}

abbrev codec : Codec KafkaMsgInfo
codec = record {
  offset_json = λ i. i;
  as_offset = offset_of;
  as_chat = λ m. record {
    userid = 1;
    friend_id = 2;
    group_id = m.group_id;
    snow_id = b's' ∷ [];
    content = m.body;
    message_type = [];
  };
  message_json = λ row. row.content;
  as_message = text_row;
}

abbrev strangers : Strangers client scripts server_strings codec
strangers = record {
  lock_string = λ k v j x r e. ap (λ f. f j) (lock_at-strings (r.locks k) k v r);
  del_string = λ k j r e. refl;
  hset_string = λ k f v j r e. refl;
}

abbrev apart_laws : Apart client scripts server_hashes server_answers locks codec
apart_laws = record {
  lock_table = λ k v j x r e. ap (λ f. as_table (f j)) (lock_at-tables (r.locks k) k v r);
  del_table = λ k j r e. refl;
}

abbrev gorm : Gorm (List TMessage)
gorm = record {
  users = no_table;
  groups = no_table;
  relations = no_table;
  friend_messages = record { find_page = λ p limit offset d. none };
  group_messages = record { find_page = λ p limit offset d. none };
  update_password = λ id p d. (true, d);
  create_in_batches = λ rows size d. (true, rows);
}

value-eq : {A : Type 0} (a b : A) → ◌≡◌ {A = Reply A} (value b) (value a) → a ≡ b
value-eq a b e = cc

abbrev laws : Emptying client scripts server_hashes server_answers locks codec gorm
laws = record {
  listed = λ k r entries e f. ap (λ l. lookup f l) (value-eq entries (r.tables k).rows e);
  deleted = λ k r o e. ap as_table (at_self k no_listing r.tables);
  deleted_frame = λ k j r e. ap as_table (apart k j no_listing r.tables e);
}

-- Another lock is held.
abbrev busy : Redis
busy = record nothing {
  locks = at (persistent_lock (group_letter_box 7)) (some (b'o' ∷ [])) (λ k. none);
}

abbrev now : Cluster Redis
now = cluster_of busy

-- a message to the group 8
abbrev a_msg : Message
a_msg = record {
  topic = b't' ∷ [];
  partition = 0;
  offset = 3;
  value = record { op = op_group_msg_send; group_id = 8; body = b'x' ∷ [] };
}

read_none : (redis_get_string client (kafka_topic_offset (b't' ∷ [])) now).0 ≡ ok none
unfolding redis_get_string axis_chat_server.Ring.get axis_chat_server.Ring.ring_key
    axis_chat_server.Ring.search
read_none = refl

goes : (hand_over client scripts codec 1 1 a_msg now).0 ≡ goes_on
unfolding hand_over redis_get_string axis_chat_server.Common.Redis.redis_set_string
    axis_chat_server.Connect.Letters.keep_msg new_redis_locker release axis_chat_server.Ring.get
    axis_chat_server.Ring.ring_key axis_chat_server.Ring.search
    axis_chat_server.Prelude.Decimal.decimal axis_chat_server.Connect.Letters.put_in_box
    axis_chat_server.Connect.Letters.acquire_until axis_chat_server.Common.Redis.redis_hset
    axis_chat_server.Common.Lock.set_expire acquire
goes = refl

hand_over-Committed_example :
    (offset_at client scripts server_strings codec
        (b't' ∷ [])
        (hand_over client scripts codec 1 1 a_msg now).1
      ≡ next_offset client scripts server_strings codec
          (offset_at client scripts server_strings codec (b't' ∷ []) now)
          a_msg)
    × (offset_at client scripts server_strings codec (b't' ∷ []) now
        ≤ offset_at client scripts server_strings codec
            (b't' ∷ [])
            (hand_over client scripts codec 1 1 a_msg now).1)
hand_over-Committed_example =
    hand_over-Committed client scripts server_strings codec strangers (λ i. refl) 1 1 a_msg now none
      read_none goes

-- a message to the group 7 is kept, when nobody holds a lock
abbrev idle : Cluster Redis
idle = cluster_of nothing

free_of : (k : Text) → holder scripts locks k idle ≡ none
unfolding axis_chat_server.Ring.get axis_chat_server.Ring.ring_key axis_chat_server.Ring.search
free_of k = refl

abbrev chat : Payload
chat = record { op = op_group_msg_send; group_id = 7; body = b'x' ∷ [] }

keep_msg-InBox_example :
    ((keep_msg client scripts codec 1 1 chat idle).0 ≡ goes_on)
    × InBox client scripts server_hashes server_answers locks codec
        (group_letter_box 7)
        (b's' ∷ [])
        (b'x' ∷ [])
        idle
        (keep_msg client scripts codec 1 1 chat idle).1
keep_msg-InBox_example =
    keep_msg-InBox client scripts server_hashes server_answers locks codec apart_laws 0 1 chat idle
      refl (cluster_of-Reachable nothing) (free_of (persistent_lock (group_letter_box 7)))

abbrev mine : RedisLockObj
mine = record { timeout = 60; key = persistent_lock (group_letter_box 7); value_ = b'o' ∷ [] }

abbrev other : RedisLockObj
other = record mine { value_ = b'p' ∷ [] }

is_mine : holder scripts locks mine.key now ≡ some mine.value_
unfolding axis_chat_server.Ring.get axis_chat_server.Ring.ring_key axis_chat_server.Ring.search
    axis_chat_server.Prelude.Decimal.decimal
is_mine = refl

is_released : (release scripts other now).0 ≡ ok true
unfolding release axis_chat_server.Ring.get axis_chat_server.Ring.ring_key
    axis_chat_server.Ring.search axis_chat_server.Prelude.Decimal.decimal
is_released = refl

is_taken_over : (acquire scripts other (release scripts other now).1).0 ≡ ok true
unfolding acquire release axis_chat_server.Ring.get axis_chat_server.Ring.ring_key
    axis_chat_server.Ring.search axis_chat_server.Prelude.Decimal.decimal
is_taken_over = refl

release-acquire_example :
    (true ≡ true)
    × (true ≡ true)
    × (holder scripts locks mine.key (acquire scripts other (release scripts other now).1).1
        ≡ some other.value_)
release-acquire_example =
    release-acquire scripts locks mine other other now true true refl refl is_mine is_released
      is_taken_over

abbrev pumping : Pumping Redis (List TMessage)
pumping = record { cache = now; db = []; frames = [] }

abbrev owner : Owner
owner = record { userid = 1; group_ids = 7 ∷ 8 ∷ [] }

own_free : holder scripts locks (persistent_lock (user_letter_box 1)) now ≡ none
unfolding axis_chat_server.Ring.get axis_chat_server.Ring.ring_key axis_chat_server.Ring.search
own_free = refl

save_own-Saved_example :
    (entries : List (Text × Text)) × ((save_box client scripts codec gorm false 1
        (user_letter_box 1)
        returned
        pumping).0
      ≡ goes_on)
    × Saved client scripts server_hashes server_answers locks codec gorm
        (user_letter_box 1)
        entries
        pumping
        (save_box client scripts codec gorm false 1 (user_letter_box 1) returned pumping).1
save_own-Saved_example =
    save_own-Saved client scripts server_hashes server_answers locks codec gorm laws apart_laws 0 1
      pumping (cluster_of-Reachable busy) own_free

abbrev other_locks : OtherLocks client scripts server_hashes server_answers locks codec gorm
other_locks = record {
  del_frame = λ k j r e. refl;
  unlock_frame = λ k j r e. apart k j none r.locks e;
}

save_chat_data_to_db-AllFree_example :
    ((save_chat_data_to_db client scripts codec gorm 1 owner pumping).0 ≡ goes_on)
    × AllFree client scripts server_hashes server_answers locks codec gorm
        (7 ∷ 8 ∷ [])
        (save_chat_data_to_db client scripts codec gorm 1 owner pumping).1
save_chat_data_to_db-AllFree_example =
    save_chat_data_to_db-AllFree client scripts server_hashes server_answers locks codec gorm
      other_locks laws apart_laws 0 owner pumping (cluster_of-Reachable busy) own_free

save_chat_data_to_db-AllEmpty_example :
    ((save_chat_data_to_db client scripts codec gorm 1 owner pumping).0 ≡ goes_on)
    × (table_at client server_hashes
          (user_letter_box 1)
          (save_chat_data_to_db client scripts codec gorm 1 owner pumping).1.cache
        ≡ axis_chat_server.Common.Redis.Effects.no_table)
    × AllEmpty client scripts server_hashes server_answers locks codec gorm
        (7 ∷ 8 ∷ [])
        (save_chat_data_to_db client scripts codec gorm 1 owner pumping).1
save_chat_data_to_db-AllEmpty_example =
    save_chat_data_to_db-AllEmpty client scripts server_hashes server_answers locks codec gorm laws
      apart_laws 0 owner pumping (cluster_of-Reachable busy) own_free

-- a status message whose goroutine has ended before a chat message, a save, and a ping that fails
abbrev pump_events : List PumpEvent
pump_events =
    status_event chat
    ∷ write_begins 0
    ∷ write_ends true
    ∷ msg_event a_msg written
    ∷ commit_tick
    ∷ ping_tick false
    ∷ []

is_quiet : quiet pump_events false ≡ true
is_quiet = refl

write_pump-Alive_example :
    Alive
      (Served client scripts codec gorm)
      (write_pump client scripts codec gorm 1 owner pump_events nobody pumping)
    × ((write_pump client scripts codec gorm 1 owner
          (status_event chat ∷ write_begins 0 ∷ msg_event a_msg written ∷ pump_events)
          nobody
          pumping).0
        ≡ crashed)
write_pump-Alive_example =
    write_pump-Alive client scripts codec gorm 1 owner pump_events pumping chat a_msg written
      (cluster_of-Reachable busy) is_quiet
