-- ===== src/Connect/Server.antt =====
-- connect/server.go: the server's buckets, and the choice of a user's bucket by CityHash. The hash
-- (utils/cityhash.go, a copy of Google's library) is the parameter `city_hash32`.
use axis_chat_server.Prelude.{
  ℕ, ◌%◌, ◌<◌, ◌≡◌, Option, some, List, [], ◌∷◌, Text, length, get_elem?, get_elem?-some,
}
use axis_chat_server.Prelude.Decimal.{decimal}
use axis_chat_server.Connect.Bucket.{Bucket}
use native.Mathlib.Nat.{mod-lt}

-- The options with an effect on the model; the timeouts go to the websocket library.
pub record WsServerOptions : Type 0 where
  pub max_message_size : ℕ
  pub read_buffer_size : ℕ
  pub write_buffer_size : ℕ
  pub broadcast_size : ℕ

abbrev pub WsServerOption : Type 0
WsServerOption = WsServerOptions → WsServerOptions

abbrev pub default_ws_options : WsServerOptions
default_ws_options = record {
  max_message_size = 512;
  read_buffer_size = 1024;
  write_buffer_size = 1024;
  broadcast_size = 512;
}

unfoldable pub ws_with_max_message_size : ℕ → WsServerOption
ws_with_max_message_size size options = record options { max_message_size = size }

unfoldable pub ws_with_read_buffer_size : ℕ → WsServerOption
ws_with_read_buffer_size size options = record options { read_buffer_size = size }

unfoldable pub ws_with_write_buffer_size : ℕ → WsServerOption
ws_with_write_buffer_size size options = record options { write_buffer_size = size }

pub record WsServer : Type 0 where
  pub buckets : List Bucket
  pub bucket_num : ℕ
  pub options : WsServerOptions

apply_ws_options : WsServerOptions → List WsServerOption → WsServerOptions
apply_ws_options options [] = options
apply_ws_options options (o ∷ os) = apply_ws_options (o options) os

unfoldable pub new_server : List Bucket → List WsServerOption → WsServer
unfolding apply_ws_options
new_server buckets os = record {
  buckets = buckets;
  bucket_num = length buckets;
  options = apply_ws_options default_ws_options os;
}

module _ (city_hash32 : Text → ℕ → ℕ) where
  -- `CityHash32([]byte(useridStr), uint32(len(useridStr))) % ws.bucketNum`
  unfoldable pub bucket_index : ℕ → WsServer → ℕ
  bucket_index userid ws =
      let userid_str = decimal userid in city_hash32 userid_str (length userid_str) % ws.bucket_num

  -- `none` is Go's panic, on a division by zero or an index out of range.
  unfoldable pub bucket : ℕ → WsServer → Option Bucket
  unfolding bucket_index
  bucket userid ws = get_elem? ws.buckets (bucket_index userid ws)

  bucket_index-lt :
      (userid : ℕ) (ws : WsServer) → 0 < ws.bucket_num → bucket_index userid ws < ws.bucket_num
  unfolding bucket_index
  bucket_index-lt userid ws some_bucket = mod-lt _ some_bucket

  -- On a new server with at least one bucket every user has a bucket, whatever the hash returns.
  pub bucket-new_server :
      (userid : ℕ) (buckets : List Bucket) (os : List WsServerOption)
      → 0 < length buckets
      → (b : Bucket) × (bucket userid (new_server buckets os) ≡ some b)
  unfolding bucket new_server
  bucket-new_server userid buckets os some_bucket =
      get_elem?-some buckets (bucket_index userid (new_server buckets os))
        (bucket_index-lt userid (new_server buckets os) some_bucket)
