-- ===== src/Logic/Connecting.antt =====
-- Connect keeps the counts of the groups right.
use axis_chat_server.Prelude.{ℕ, ◌≡◌, refl, ◌≢◌, Bool-cases, inl, inr, [], Text, if◌then◌else◌}
use axis_chat_server.Prelude.Decimal.{decimal}
use axis_chat_server.Common.Param.{op_friend_online_send}
use axis_chat_server.Common.Keys.{
  session, userid_map_server_id, user_group_list, user_friend_list, all_online_user,
}
use axis_chat_server.Common.Redis.{Client, ok, err, redis_get_string, redis_set_string, redis_hset}
use axis_chat_server.Common.Redis.Effects.{Hashes}
use axis_chat_server.Logic.Data.{
  Stored, text, ids_json, is_blank, as_user, Db, World, on_cache, system, same, TUser,
  illegal_access_token,
}
use axis_chat_server.Logic.Presence.{
  enter_group, for_each, connect, connect_user, push_user_info, on_text,
}
use axis_chat_server.Logic.Counting.{Presence}
use axis_chat_server.Logic.Online.{
  enter_group-Presence, or_fail-Presence, for_each-Presence, friends-Presence, set-Presence,
  hset-Presence, get-Presence,
}

module _ {R : Type 0} (api : Client R Stored) (hashes : Hashes R Stored api) {D : Type 0}
    (db : Db D) where
  connect_user-Presence :
      (user : TUser) (server_id : Text) (userid : ℕ) (w : World R D)
      → server_id ≢ []
      → Presence api hashes w.cache
      → (connect_user api db user server_id w).0 ≡ ok userid
      → Presence api hashes (connect_user api db user server_id w).1.cache
  unfolding connect_user
  connect_user-Presence user server_id userid w named p e =
      or_fail-Presence api hashes db system
        (on_cache (redis_set_string api (userid_map_server_id user.id) (text server_id) 0) w) _
        userid
        (λ t good.
          set-Presence api hashes db (userid_map_server_id user.id) (text server_id) 0 w.cache
            (λ g. refl) refl p)
        (λ t w1 p1.
          let groups = db.query_user_all_group_id user.id w1.db in
          let friends = db.query_user_all_friend_id user.id w1.db in
          or_fail-Presence api hashes db system
            (on_cache (redis_hset api all_online_user (decimal user.id) on_text) w1) _ userid
            (λ t good. hset-Presence api hashes db (decimal user.id) on_text w1.cache p1)
            (λ t w2 p2.
              or_fail-Presence api hashes db same
                (for_each api db (enter_group api db user.id server_id) groups w2) _ userid
                (λ t good.
                  for_each-Presence api hashes db (enter_group api db user.id server_id)
                    (λ val w' p' e'.
                      enter_group-Presence api hashes db user.id server_id val w' named p' e')
                    groups w2 p2 good)
                (λ t w3 p3.
                  or_fail-Presence api hashes db system
                    (on_cache (redis_set_string api (user_group_list user.id) (ids_json groups) 0)
                      w3)
                    _ userid
                    (λ t good.
                      set-Presence api hashes db (user_group_list user.id) (ids_json groups) 0
                        w3.cache (λ g. refl) refl p3)
                    (λ t w4 p4.
                      or_fail-Presence api hashes db system
                        (for_each api db
                          (λ val.
                            push_user_info api db user.id user.username val op_friend_online_send)
                          friends w4)
                        _ userid
                        (λ t good.
                          friends-Presence api hashes db user.id user.username op_friend_online_send
                            friends w4 p4 good)
                        (λ t w5 p5.
                          or_fail-Presence api hashes db system
                            (on_cache
                              (redis_set_string api (user_friend_list user.id) (ids_json friends) 0)
                              w5)
                            (λ t w6. (ok user.id, w6)) userid
                            (λ t good.
                              set-Presence api hashes db (user_friend_list user.id)
                                (ids_json friends) 0 w5.cache (λ g. refl) refl p5)
                            (λ t w6 p6 e6. p6))))))
        e

  -- When each group's count is the number of entries in its table of online users, and no entry is the
  -- empty text, both still hold after a Connect with a server id that is not empty and that returns
  -- without an error, whichever groups its user is in and whether or not the user was online. It is
  -- assumed that redis answers every HGET and that reading changes nothing.
  pub connect-Presence :
      (access_token server_id : Text) (userid : ℕ) (w : World R D)
      → server_id ≢ []
      → Presence api hashes w.cache
      → (connect api db access_token server_id w).0 ≡ ok userid
      → Presence api hashes (connect api db access_token server_id w).1.cache
  unfolding connect
  connect-Presence access_token server_id userid w named p e =
      or_fail-Presence api hashes db system
        (on_cache (redis_get_string api (session access_token)) w)
        (λ res w1.
          if is_blank res
          then (err illegal_access_token, w1)
          else connect_user api db (as_user res) server_id w1)
        userid (λ t good. get-Presence api hashes db (session access_token) w.cache p)
        (λ res w1 p1. elim (Bool-cases (is_blank res)) [
          | inl blank ↦ λ e1. rw blank p1
          | inr stored ↦
              rw stored (connect_user-Presence (as_user res) server_id userid w1 named p1)
        ])
        e
