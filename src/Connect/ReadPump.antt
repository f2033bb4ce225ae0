-- ===== src/Connect/ReadPump.antt =====
-- connect/server_ws.go, readPump: the requests that a client sends over its web socket, and what is done
-- when the connection ends; and the interface of connect/operator.go. What the web socket gives is a
-- list of events.
pub mod Ends
pub mod Groupless
pub mod Lifecycle
pub mod Tests
use axis_chat_server.Prelude.{
  ℕ, ◌+◌, Bool, true, false, Option, none, some, List, [], ◌∷◌, set, Text, ◌=text◌, ◌==◌,
  if◌then◌else◌,
}
use axis_chat_server.Common.Keys.{user_group_list}
use axis_chat_server.Common.Redis.{Client, Cluster, Result, ok, err, RedisError, redis_get_string}
use axis_chat_server.Connect.Channel.{Ptr}
use axis_chat_server.Connect.Bucket.{Bucket, Memory, put_channel, delete_chanel}
use axis_chat_server.Connect.Letters.{Pump, goes_on, returned, waiting, crashed}
use axis_chat_server.Connect.Server.{WsServer, bucket, bucket_index}
use axis_chat_server.Discovery.{ServiceDiscovery, Outcome, fine, GetError, get_service_by_server_id}
use axis_chat_server.Discovery as Discovery
use axis_chat_server.Logic.Data.{
  Stored, text, user_json, ids_json, status_json, Db, World, LogicError,
}
use axis_chat_server.Logic.Presence as Presence

-- What the calls of the logic layer work on: the caches and the database, which the layers share, and the
-- services that etcd has reported, each by its address.
pub record Remote (R D : Type 0) : Type 0 where
  pub cache : Cluster R
  pub db : D
  pub discovery : ServiceDiscovery Text

-- Why a call returns an error: no service to ask, no answer, or the error that the service answers.
pub data CallError : Type 0 where
  not_found : GetError → CallError
  not_reached : CallError
  answered_with : LogicError → CallError

-- The outcome of a call, where `none` is a panic.
abbrev pub Call : Type 0 → Type 0 → Type 0 → Type 0
Call R D A = Option (Result CallError A × Remote R D)

-- The calls of the logic layer.
pub record Operator (R D : Type 0) : Type 0 where
  pub connect : Text → Text → Remote R D → Call R D ℕ
  pub dis_connect : ℕ → Remote R D → Call R D Unit

module _ {R D A : Type 0} where
  abbrev pub answered : Result LogicError A × World R D → Remote R D → Call R D A
  answered (err e, w) r = some (err (answered_with e), record r { cache = w.cache; db = w.db })
  answered (ok a, w) r = some (ok a, record r { cache = w.cache; db = w.db })

  -- The call of a handler of the logic layer, once GetServiceByServerId has run. `reaches` is whether the
  -- instance answers; one that does not has done nothing.
  abbrev pub call_logic :
      (Option Text → Bool)
      → (World R D → Result LogicError A × World R D)
      → Outcome ((Option Text × Option GetError) × ServiceDiscovery Text)
      → Remote R D
      → Call R D A
  call_logic reaches handler Discovery.crashed r = none
  call_logic reaches handler (fine ((ins, some e), d)) r =
      some (err (not_found e), record r { discovery = d })
  call_logic reaches handler (fine ((ins, none), d)) r =
      if reaches ins
      then answered (handler (record { cache = r.cache; db = r.db })) (record r { discovery = d })
      else some (err not_reached, record r { discovery = d })

-- DefaultOperator, with Connect and DisConnect of connect/connect.go, where no step of etcd's watcher falls
-- between the halves of GetServiceByServerId; `logic_id` is the server id of the logic layer.
abbrev pub default_operator :
    {R D : Type 0} → Client R Stored → Db D → Text → (Option Text → Bool) → Operator R D
default_operator api db logic_id reaches = record {
  connect = λ access_token server_id r.
      call_logic reaches (Presence.connect api db access_token server_id)
        (get_service_by_server_id logic_id r.discovery) r;
  dis_connect = λ userid r.
      call_logic reaches (Presence.dis_connect api db userid)
        (get_service_by_server_id logic_id r.discovery) r;
}

-- `json.Unmarshal` into a list of numbers, with the empty list where it fails
abbrev pub as_ids : Option Stored → List ℕ
as_ids none = []
as_ids (some (text t)) = []
as_ids (some (user_json user)) = []
as_ids (some (ids_json ids)) = ids
as_ids (some (status_json msg)) = []

-- What ReadMessage gives: an error or no message, or a message by its access token, which is "" when it
-- is not the JSON of a request, with whether the answer "ok" can be written.
pub data ReadEvent : Type 0 where
  read_failed : ReadEvent
  received : Text → Bool → ReadEvent

-- The servers of the connect layer and of the logic layer, and the number of answers "ok".
pub record Reading (R D : Type 0) : Type 0 where
  pub ws : WsServer
  pub memory : Memory
  pub world : Remote R D
  pub answers : ℕ

-- `for _, val := range groupIdList { b.PutChannel(userId, val, ch) }`
unfoldable pub put_all : ℕ → List ℕ → Ptr → Bucket → Memory → Bucket × Memory
put_all userid [] ch b m = (b, m)
put_all userid (id ∷ group_ids) ch b m =
    let (b', m') = put_channel userid id ch b m in put_all userid group_ids ch b' m'

module _ {R D : Type 0} (api : Client R Stored) (city_hash32 : Text → ℕ → ℕ)
    (op : Operator R D) where
  -- a bucket that has changed in place, and the memory
  abbrev pub with_bucket : ℕ → Bucket × Memory → Reading R D → Reading R D
  with_bucket userid (b, m) s = record s {
    ws = record s.ws { buckets = set s.ws.buckets (bucket_index city_hash32 userid s.ws) b };
    memory = m;
  }

  abbrev pub put_listed :
      ℕ
      → Ptr
      → Bucket
      → Result RedisError (Option Stored) × Cluster R
      → Reading R D
      → Pump × Reading R D
  put_listed userid ch b (err e, c) s =
      (returned, record s { world = record s.world { cache = c } })
  put_listed userid ch b (ok res, c) s = (
    goes_on,
    with_bucket userid (put_all userid (as_ids res) ch b s.memory)
        (record s { world = record s.world { cache = c } }),
  )

  abbrev pub put_in_bucket : ℕ → Ptr → Option Bucket → Reading R D → Pump × Reading R D
  put_in_bucket userid ch none s = (crashed, s)
  put_in_bucket userid ch (some b) s =
      put_listed userid ch b (redis_get_string api (user_group_list userid) s.world.cache) s

  -- what follows the call of Connect
  abbrev pub connected : Ptr → Bool → Result CallError ℕ → Reading R D → Pump × Reading R D
  connected ch sent (err e) s = (returned, s)
  connected ch sent (ok userid) s =
      if userid == 0
      then (returned, s)
      else if sent
      then put_in_bucket userid ch (bucket city_hash32 userid s.ws)
          (record s { answers = s.answers + 1 })
      else (returned, s)

  -- a panic of Connect, or its answer
  abbrev pub called : Ptr → Bool → Call R D ℕ → Reading R D → Pump × Reading R D
  called ch sent none s = (crashed, s)
  called ch sent (some (res, world)) s = connected ch sent res (record s { world = world })

  -- one round of the loop of readPump
  unfoldable pub read_step : Ptr → Text → ReadEvent → Reading R D → Pump × Reading R D
  unfolding put_all
  read_step ch server_id read_failed s = (returned, s)
  read_step ch server_id (received access_token sent) s =
      if access_token =text []
      then (returned, s)
      else called ch sent (op.connect access_token server_id s.world) s

  -- a panic of DisConnect, or its answer, which is only logged
  abbrev pub told : Call R D Unit → Reading R D → Pump × Reading R D
  told none s = (crashed, s)
  told (some (res, world)) s = (returned, record s { world = world })

  abbrev pub leave_bucket : ℕ → Ptr → Option Bucket → Reading R D → Pump × Reading R D
  leave_bucket userid ch none s = (crashed, s)
  leave_bucket userid ch (some b) s =
      let left = with_bucket userid (delete_chanel ch b s.memory) s in
      told (op.dis_connect (left.memory.channels ch).userid left.world) left

  -- what is deferred to the end of readPump
  unfoldable pub disconnect : Ptr → Reading R D → Pump × Reading R D
  disconnect ch s =
      let userid = (s.memory.channels ch).userid in
      if userid == 0
      then (returned, s)
      else leave_bucket userid ch (bucket city_hash32 userid s.ws) s

  -- The loop over the events that come; `waiting` is that the next has not come.
  unfoldable pub read_pump : Ptr → Text → List ReadEvent → Reading R D → Pump × Reading R D
  unfolding read_step disconnect
  read_pump ch server_id [] s = (waiting, s)
  read_pump ch server_id (event ∷ events) s =
      let step = read_step ch server_id event s in
      let rest = read_pump ch server_id events step.1 in
      elim step.0 [
        | goes_on ↦ rest
        | returned ↦ disconnect ch step.1
        | waiting ↦ step
        | crashed ↦ (crashed, (disconnect ch step.1).1)
      ]
