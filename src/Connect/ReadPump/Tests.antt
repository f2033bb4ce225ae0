-- ===== src/Connect/ReadPump/Tests.antt =====
-- A connection of the user 10 on a server with one bucket.
use axis_chat_server.Prelude.{ℕ, ◌≡◌, refl, true, none, some, List, [], ◌∷◌, arith, Text}
use axis_chat_server.Common.Keys.{user_group_list}
use axis_chat_server.Common.Redis.{Cluster, ok, redis_get_string}
use axis_chat_server.Common.Redis.Tests.{Server, client, cluster_of, nothing, at}
use axis_chat_server.Connect.Bucket.Tests.{one_group, memory, pair-Online}
use axis_chat_server.Connect.Letters.{returned}
use axis_chat_server.Connect.Rpc.Tests.{len_hash, server, bucket-server}
use axis_chat_server.Connect.ReadPump.{
  Operator, Remote, ReadEvent, read_failed, received, Reading, read_pump,
}
use axis_chat_server.Connect.ReadPump.Groupless.{read_pump-Groupless}
use axis_chat_server.Connect.ReadPump.Lifecycle.{Left, read_pump-Left}
use axis_chat_server.Discovery.{new_service_discovery}
use axis_chat_server.Logic.Data.{Stored, ids_json}

-- the cache, where the user 10 has a list of groups
abbrev cache_of : List ℕ → Cluster (Server Stored)
cache_of ids =
    cluster_of
      (record nothing { strings = at (user_group_list 10) (some (ids_json ids)) (λ k. none) })

-- Connect knows the user 10, and DisConnect does nothing.
abbrev operator : Operator (Server Stored) Unit
operator = record { connect = λ t i w. some (ok 10, w); dis_connect = λ u w. some (ok tt, w) }

abbrev world_of : List ℕ → Remote (Server Stored) Unit
world_of ids = record { cache = cache_of ids; db = tt; discovery = new_service_discovery }

abbrev reading_of : List ℕ → Reading (Server Stored) Unit
reading_of ids = record { ws = server; memory = memory; world = world_of ids; answers = 0 }

abbrev token : Text
token = b't' ∷ []

abbrev events : List ReadEvent
events = received token true ∷ read_failed ∷ []

-- the cache after it was read
abbrev seen_of : List ℕ → Cluster (Server Stored)
seen_of ids = (redis_get_string client (user_group_list 10) (cache_of ids)).1

groups_of :
    (ids : List ℕ)
    → redis_get_string client (user_group_list 10) (cache_of ids)
      ≡ (ok (some (ids_json ids)), seen_of ids)
unfolding redis_get_string axis_chat_server.Ring.get axis_chat_server.Ring.ring_key
    axis_chat_server.Ring.search axis_chat_server.Prelude.Decimal.decimal
groups_of ids = refl

read_pump-Groupless_example : read_pump client len_hash operator 1 token events (reading_of []) ≡ (
  returned,
  record (reading_of []) { world = record (world_of []) { cache = seen_of [] }; answers = 1 },
)
read_pump-Groupless_example =
    read_pump-Groupless client len_hash operator 1 token token 10 (reading_of []) (world_of [])
      (seen_of []) one_group refl refl refl refl bucket-server (groups_of [])

read_pump-Left_example :
    Left client len_hash operator 10 7
      (2 ∷ 3 ∷ [])
      (record (world_of (7 ∷ [])) { cache = seen_of (7 ∷ []) })
      (read_pump client len_hash operator 1 token events (reading_of (7 ∷ [])))
read_pump-Left_example =
    read_pump-Left client len_hash operator 1 token token 10 7 (reading_of (7 ∷ []))
      (world_of (7 ∷ [])) (seen_of (7 ∷ [])) one_group (2 ∷ 3 ∷ []) (ground arith) (ground arith)
      refl refl refl refl refl bucket-server (groups_of (7 ∷ [])) pair-Online
