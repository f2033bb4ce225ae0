-- ===== src/Connect/Bucket/Queue.antt =====
-- The queues of a bucket: no send runs off the end, and each message enters one queue, at its end.
use axis_chat_server.Prelude.{
  ℕ, ◌%◌, ◌<◌, ◌≡◌, some, List, [], ◌∷◌, ◌++◌, arith, length, get_elem?, ltb, set, if◌then◌else◌,
  sym, ◌∙◌, get_elem?-some, length-set, length-replicate,
}
use native.Mathlib.Nat.{mod-lt}
use axis_chat_server.Connect.Channel.{Message}
use axis_chat_server.Connect.Bucket.{
  Bucket, BucketOption, new_bucket, apply_options, default_options, Sent, sent, blocked, send, bump,
  broadcast_room,
}

-- A bucket has a queue for each number below `routine_num`, and at least one.
pub record HasQueues (b : Bucket) : Type 0 where
  pub some_queue : 0 < b.routine_num
  pub counted : length b.routines ≡ b.routine_num

-- the index of the next message's queue
abbrev pub target : Bucket → ℕ
target b = bump b.routine_idx % b.routine_num

new_bucket-HasQueues :
    (os : List BucketOption)
    → 0 < (apply_options default_options os).routine_amount
    → HasQueues (new_bucket os)
unfolding new_bucket
new_bucket-HasQueues os h = record {
  some_queue = h;
  counted = length-replicate (apply_options default_options os).routine_amount [];
}

-- What `BroadcastRoom` does to a queue of the given contents.
abbrev pub enqueued : Message → Bucket → List Message → Sent Bucket
enqueued msg b q =
    if ltb (length q) b.routine_size
    then sent (record b {
      routine_idx = bump b.routine_idx;
      routines = set b.routines (target b) (q ++ msg ∷ []);
    })
    else blocked

module _ (msg : Message) (b : Bucket) (q : List Message) where
  broadcast_room_lem :
      HasQueues b
      → get_elem? b.routines (target b) ≡ some q
      → broadcast_room msg b ≡ enqueued msg b q
  unfolding broadcast_room send
  broadcast_room_lem ready at = ground arith

enqueued-HasQueues :
    (msg : Message) (b : Bucket) (q : List Message)
    → HasQueues b
    → (b' : Bucket) → enqueued msg b q ≡ sent b'
    → HasQueues b'
enqueued-HasQueues msg b q ready b' run =
    let same = length-set b.routines (target b) (q ++ msg ∷ []) in
    record { some_queue = ground arith; counted = ground (arith, same) }

-- `BroadcastRoom` finds a queue: it never panics. With room in that queue the message goes to its
-- end, no other queue changes, and the next message goes to the next index; a full queue makes the
-- caller wait.
pub broadcast_room-HasQueues :
    (msg : Message) (b : Bucket)
    → HasQueues b
    → (q : List Message) × (get_elem? b.routines (target b) ≡ some q)
      × (broadcast_room msg b ≡ enqueued msg b q)
      × ((b' : Bucket) → broadcast_room msg b ≡ sent b' → HasQueues b')
broadcast_room-HasQueues msg b ready =
    let bound = mod-lt (bump b.routine_idx) ready.some_queue in
    let below : target b < length b.routines = omega (arith, ready.counted) in
    let (q, at) = get_elem?-some b.routines (target b) below in
    let e = broadcast_room_lem msg b q ready at in
    (q, at, e, λ b' run. enqueued-HasQueues msg b q ready b' (sym e ∙ run))
