-- ===== src/Connect/ReadPump/Groupless.antt =====
-- A user who is in no group, from the first request to the end of the connection.
use axis_chat_server.Prelude.{
  ℕ, ◌+◌, ◌≡◌, refl, true, false, some, [], ◌∷◌, set-same, Text, ◌=text◌, ◌==◌, ap, ◌∙◌,
}
use axis_chat_server.Common.Keys.{user_group_list}
use axis_chat_server.Common.Redis.{Client, Cluster, ok, redis_get_string}
use axis_chat_server.Connect.Channel.{Ptr}
use axis_chat_server.Connect.Bucket.{Bucket}
use axis_chat_server.Connect.Letters.{goes_on, returned}
use axis_chat_server.Connect.Server.{bucket, bucket_index}
use axis_chat_server.Connect.ReadPump.{
  Operator, Remote, read_failed, received, Reading, with_bucket, put_all, read_step, disconnect,
  read_pump,
}
use axis_chat_server.Connect.ReadPump.Ends.{read_pump-ends}
use axis_chat_server.Logic.Data.{Stored, ids_json}

module _ {R D : Type 0} (api : Client R Stored) (city_hash32 : Text → ℕ → ℕ)
    (op : Operator R D) where
  -- a bucket that is put back as it was
  with_bucket-same :
      (userid : ℕ) (b : Bucket) (s : Reading R D)
      → bucket city_hash32 userid s.ws ≡ some b
      → with_bucket api city_hash32 op userid (b, s.memory) s ≡ s
  unfolding bucket
  with_bucket-same userid b s at =
      ap (λ bs. record s { ws = record s.ws { buckets = bs } })
        (set-same s.ws.buckets (bucket_index city_hash32 userid s.ws) b at)

  accepted :
      (ch : Ptr) (access_token server_id : Text) (userid : ℕ) (s : Reading R D) (w : Remote R D)
      (c : Cluster R) (b : Bucket)
      → (access_token =text []) ≡ false
      → op.connect access_token server_id s.world ≡ some (ok userid, w)
      → (userid == 0) ≡ false
      → bucket city_hash32 userid s.ws ≡ some b
      → redis_get_string api (user_group_list userid) w.cache ≡ (ok (some (ids_json [])), c)
      → read_step api city_hash32 op ch server_id (received access_token true) s
        ≡ (goes_on, record s { world = record w { cache = c }; answers = s.answers + 1 })
  unfolding read_step put_all
  accepted ch access_token server_id userid s w c b given called known at listed =
      rw (read_step, given, called, known, at, listed)
        (ap (λ q. (goes_on, q))
          (with_bucket-same userid b
            (record s { world = record w { cache = c }; answers = s.answers + 1 }) at))

  -- A connection that is new, of a user whose list of groups in the cache is empty: once Connect has
  -- answered with the user, the request is answered with "ok", but neither the buckets nor the memory of
  -- the connections change, so that the connection is never the user's; and when it ends, the logic
  -- layer is not told, so that the state in which Connect left it stays, read once from the cache.
  pub read_pump-Groupless :
      (ch : Ptr) (access_token server_id : Text) (userid : ℕ) (s : Reading R D) (w : Remote R D)
      (c : Cluster R) (b : Bucket)
      → (access_token =text []) ≡ false
      → op.connect access_token server_id s.world ≡ some (ok userid, w)
      → (userid == 0) ≡ false
      → (s.memory.channels ch).userid ≡ 0
      → bucket city_hash32 userid s.ws ≡ some b
      → redis_get_string api (user_group_list userid) w.cache ≡ (ok (some (ids_json [])), c)
      → read_pump api city_hash32 op ch server_id (received access_token true ∷ read_failed ∷ []) s
        ≡ (returned, record s { world = record w { cache = c }; answers = s.answers + 1 })
  unfolding disconnect
  read_pump-Groupless ch access_token server_id userid s w c b given called known new at listed =
      read_pump-ends api city_hash32 op ch server_id (received access_token true) s
        (record s { world = record w { cache = c }; answers = s.answers + 1 })
        (accepted ch access_token server_id userid s w c b given called known at listed)
      ∙ rw (disconnect, new) refl
