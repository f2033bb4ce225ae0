-- ===== src/Connect/ReadPump/Ends.antt =====
-- A connection with one request that is accepted.
use axis_chat_server.Prelude.{◌≡◌, [], ◌∷◌, Text, ℕ, ap}
use axis_chat_server.Common.Redis.{Client}
use axis_chat_server.Connect.Channel.{Ptr}
use axis_chat_server.Connect.Letters.{Pump, goes_on, returned, waiting, crashed}
use axis_chat_server.Connect.ReadPump.{
  Operator, ReadEvent, read_failed, Reading, read_step, disconnect, read_pump,
}
use axis_chat_server.Logic.Data.{Stored}

module _ {R D : Type 0} (api : Client R Stored) (city_hash32 : Text → ℕ → ℕ)
    (op : Operator R D) where
  -- After a request the end of the connection runs what was deferred.
  pub read_pump-ends :
      (ch : Ptr) (server_id : Text) (event : ReadEvent) (s s' : Reading R D)
      → read_step api city_hash32 op ch server_id event s ≡ (goes_on, s')
      → read_pump api city_hash32 op ch server_id (event ∷ read_failed ∷ []) s
        ≡ disconnect api city_hash32 op ch s'
  unfolding read_pump read_step
  read_pump-ends ch server_id event s s' first =
      let pump = read_pump api city_hash32 op ch server_id (read_failed ∷ []) in
      let leave = disconnect api city_hash32 op ch in
      ap
        (λ (p : Pump × Reading R D). elim p.0 [
          | goes_on ↦ pump p.1
          | returned ↦ leave p.1
          | waiting ↦ p
          | crashed ↦ (crashed, (leave p.1).1)
        ])
        first
