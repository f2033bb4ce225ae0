-- ===== src/Connect/Rpc/Delivery.antt =====
-- Whom the calls reach.
use axis_chat_server.Prelude.{
  ℕ, ◌<◌, ◌≤◌, ◌≡◌, refl, ◌≢◌, ◌⊎◌, Bool-cases, false, inl, inr, some, List, [], ◌∷◌, ◌++◌, Text,
  lookup, length, get_elem?, ltb, set, get_elem?-set_self, elem, ap, sym, subst, ◌∙◌, arith,
}
use axis_chat_server.Connect.Channel.{Ptr, nil_ptr, Payload, Message, push}
use axis_chat_server.Connect.GroupNode.{update}
use axis_chat_server.Connect.Bucket.{
  Bucket, Memory, Sent, sent, blocked, panic, bump, no_group, get_channel, broadcast_room,
  put_channel,
}
use axis_chat_server.Connect.Bucket.Online.{Online}
use axis_chat_server.Connect.Bucket.Join.{put_channel-Online}
use axis_chat_server.Connect.Bucket.Queue.{HasQueues, target, enqueued, broadcast_room-HasQueues}
use axis_chat_server.Connect.Server.{WsServer, bucket, bucket_index}
use axis_chat_server.Connect.Rpc.{
  FriendBody, KafkaInfo, Run, returns, waits, faults, done, broadcast_all, push_group_msg,
  push_friend_msg, kafka_msg, sent_and, offer, in_bucket, at_channel,
}

-- What a group message does to a bucket: the queue whose turn it is has room, the message goes to its end,
-- no other queue changes, and the turn is the next queue's.
pub record Queued (msg : Message) (b b' : Bucket) : Type 0 where
  pub queue : List Message
  pub turn : get_elem? b.routines (target b) ≡ some queue
  pub room : length queue < b.routine_size
  pub after : b' ≡ record b {
    routine_idx = bump b.routine_idx;
    routines = set b.routines (target b) (queue ++ msg ∷ []);
  }

-- The queue whose turn it is is full.
pub record Full (b : Bucket) : Type 0 where
  pub queue : List Message
  pub turn : get_elem? b.routines (target b) ≡ some queue
  pub full : b.routine_size ≤ length queue

-- Each bucket has taken the message.
abbrev pub EachQueued : Message → List Bucket → List Bucket → Type 0
EachQueued msg [] [] = Unit
EachQueued msg [] (b' ∷ bs') = ⊥
EachQueued msg (b ∷ bs) [] = ⊥
EachQueued msg (b ∷ bs) (b' ∷ bs') = Queued msg b b' × EachQueued msg bs bs'

-- Some bucket has its turn at a full queue.
abbrev pub SomeFull : List Bucket → Type 0
SomeFull [] = ⊥
SomeFull (b ∷ bs) = Full b ⊎ SomeFull bs

abbrev pub AllQueues : List Bucket → Type 0
AllQueues [] = Unit
AllQueues (b ∷ bs) = HasQueues b × AllQueues bs

-- The outcomes that a run over the buckets may have.
abbrev pub Walked : Message → List Bucket → Sent (List Bucket) → Type 0
Walked msg bs (sent bs') = EachQueued msg bs bs' × AllQueues bs'
Walked msg bs blocked = SomeFull bs
Walked msg bs panic = ⊥

-- The outcomes of one send.
abbrev Sending : Message → Bucket → Sent Bucket → Type 0
Sending msg b (sent b') = Queued msg b b' × HasQueues b'
Sending msg b blocked = Full b
Sending msg b panic = ⊥

module _ (msg : Message) where
  enqueued-Sending :
      (b : Bucket) (q : List Message)
      → get_elem? b.routines (target b) ≡ some q
      → ((b' : Bucket) → enqueued msg b q ≡ sent b' → HasQueues b')
      → Sending msg b (enqueued msg b q)
  enqueued-Sending b q at kept = elim (Bool-cases (ltb (length q) b.routine_size)) [
    | inl room ↦ rw room (
      record { queue = q; turn = at; room = ground (arith, room); after = refl },
      kept _ (rw room refl),
    )
    | inr full ↦ rw full record { queue = q; turn = at; full = ground (arith, full) }
  ]

  broadcast_room-Sending : (b : Bucket) → HasQueues b → Sending msg b (broadcast_room msg b)
  broadcast_room-Sending b ready =
      let (q, at, run, kept) = broadcast_room-HasQueues msg b ready in
      subst (Sending msg b) (sym run) (enqueued-Sending b q at (λ b' e. kept b' (run ∙ e)))

  Walked-step :
      (b : Bucket) (bs : List Bucket) (r : Sent Bucket) (later : Sent (List Bucket))
      → Sending msg b r
      → Walked msg bs later
      → Walked msg (b ∷ bs) (sent_and r later)
  Walked-step b bs (sent b') (sent bs') (here, kept) (each, ready) = ((here, each), (kept, ready))
  Walked-step b bs (sent b') blocked here w = inr w
  Walked-step b bs (sent b') panic here w = w
  Walked-step b bs blocked later here w = inl here
  Walked-step b bs panic later here w = absurd here

  broadcast_all-Walked :
      (bs : List Bucket) → AllQueues bs → Walked msg bs (broadcast_all (broadcast_room msg) bs)
  unfolding broadcast_all
  broadcast_all-Walked [] ready = (tt, tt)
  broadcast_all-Walked (b ∷ bs) (here, later) =
      Walked-step b bs (broadcast_room msg b) (broadcast_all (broadcast_room msg) bs)
        (broadcast_room-Sending b here) (broadcast_all-Walked bs later)

-- The outcomes of a group call.
abbrev pub Reached : Message → WsServer → Run WsServer → Type 0
Reached msg ws (returns r ws') =
    (r ≡ done) × EachQueued msg ws.buckets ws'.buckets × AllQueues ws'.buckets
Reached msg ws waits = SomeFull ws.buckets
Reached msg ws faults = ⊥

Reached-Walked :
    (msg : Message) (ws : WsServer) (r : Sent (List Bucket))
    → Walked msg ws.buckets r
    → Reached msg ws (elim r [
      | sent bs ↦ returns done (record ws { buckets = bs })
      | blocked ↦ waits
      | panic ↦ faults
    ])
Reached-Walked msg ws (sent bs) (each, ready) = (refl, each, ready)
Reached-Walked msg ws blocked w = w
Reached-Walked msg ws panic w = w

-- A group message that the task layer hands to a connect server whose buckets have queues: when the call
-- returns, in every bucket the queue whose turn it was had room and has the message at its end, no other
-- queue has changed, and the turn is the next queue's; when the call waits, some bucket has its turn
-- at a full queue. It never faults.
pub push_group_msg-EachQueued :
    (msg : Payload) (info : KafkaInfo) (ws : WsServer)
    → AllQueues ws.buckets
    → Reached (kafka_msg info msg) ws (push_group_msg (some (msg, info)) ws)
unfolding push_group_msg
push_group_msg-EachQueued msg info ws ready =
    Reached-Walked (kafka_msg info msg) ws
      (broadcast_all (broadcast_room (kafka_msg info msg)) ws.buckets)
      (broadcast_all-Walked (kafka_msg info msg) ws.buckets ready)

module _ (city_hash32 : Text → ℕ → ℕ) where
  to_user_at :
      (req : FriendBody) (info : KafkaInfo) (ws : WsServer) (m : Memory) (b : Bucket) (ch : Ptr)
      → bucket city_hash32 req.belong ws ≡ some b
      → lookup req.belong b.socket_map ≡ some ch
      → push_friend_msg city_hash32 (some (req, info)) ws m
        ≡ returns done (record m {
          channels = update m.channels ch (push (kafka_msg info req.payload) (m.channels ch));
        })
  unfolding push_friend_msg get_channel
  to_user_at req info ws m b ch at found =
      ap (λ o. in_bucket req.belong (offer (kafka_msg info req.payload)) o m) at
      ∙ ap (λ o. at_channel (offer (kafka_msg info req.payload)) o m) found

  bucket-set :
      (userid : ℕ) (ws : WsServer) (b b' : Bucket)
      → bucket city_hash32 userid ws ≡ some b
      → bucket city_hash32 userid
          (record ws { buckets = set ws.buckets (bucket_index city_hash32 userid ws) b' })
        ≡ some b'
  unfolding bucket
  bucket-set userid ws b b' at =
      get_elem?-set_self ws.buckets (bucket_index city_hash32 userid ws) b' b at

  -- Once a user's connection is put into the user's bucket, for a group whose list is well-formed
  -- and does not have the connection yet, a private message for the user is offered to that
  -- connection, and no other connection changes.
  pub push_friend_msg-put_channel :
      (group_id : ℕ) (ch : Ptr) (req : FriendBody) (info : KafkaInfo) (ws : WsServer) (m : Memory)
      (b : Bucket) (xs : List Ptr)
      → bucket city_hash32 req.belong ws ≡ some b
      → group_id ≢ no_group
      → ch ≢ nil_ptr
      → elem ch xs ≡ false
      → Online b m group_id xs
      → push_friend_msg city_hash32
          (some (req, info))
          (record ws {
            buckets =
                set ws.buckets
                  (bucket_index city_hash32 req.belong ws)
                  (put_channel req.belong group_id ch b m).0;
          })
          (put_channel req.belong group_id ch b m).1
        ≡ returns done
            (offer (kafka_msg info req.payload) ch (put_channel req.belong group_id ch b m).1)
  push_friend_msg-put_channel group_id ch req info ws m b xs at real nz out on =
      let (b', m') = put_channel req.belong group_id ch b m in
      let (joined, found, kept) = put_channel-Online req.belong group_id ch b m xs real nz out on in
      to_user_at req info
        (record ws { buckets = set ws.buckets (bucket_index city_hash32 req.belong ws) b' }) m' b'
        ch (bucket-set req.belong ws b b' at) found
