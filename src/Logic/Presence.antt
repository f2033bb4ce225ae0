-- ===== src/Logic/Presence.antt =====
-- Connect, DisConnect and AddGroup of logic/rpc.go, and the messages of logic/publish.go.
use axis_chat_server.Prelude.Atoi.{atoi}
use axis_chat_server.Prelude.{ℕ, Bool, true, false, List, [], ◌∷◌, map, Text, ◌==◌, if◌then◌else◌}
use axis_chat_server.Prelude.Decimal.{decimal}
use axis_chat_server.Prelude.Int.{ℤ, pos, negsuc}
use axis_chat_server.Common.Param.{
  op_group_oline_user_count_send, op_group_info_send, op_friend_online_send,
  op_friend_off_online_send,
}
use axis_chat_server.Common.Keys.{
  session, group_online_user, group_online_user_count, userid_map_server_id, user_group_list,
  user_friend_list, all_online_user, status_msg_queue,
}
use axis_chat_server.Common.Redis.{
  Client, Result, ok, err, redis_set_string, redis_get_string, redis_hset, redis_is_not_exist_hset,
  redis_hincr_by, redis_hget, redis_hget_all, redis_hdel, redis_lpush,
}
use axis_chat_server.Logic.Data.{
  TUser, StatusMsg, friend_online_msg, friend_offline_msg, group_info_msg, group_count_msg, no_msg,
  group, Stored, text, ids_json, status_json, is_blank, as_user, as_text, Db, World, LogicError,
  illegal_access_token, add_group_failed, or_fail, system, same, on_cache,
}

-- the count that a group's entry reads as, where an error reads as ""
abbrev pub count_of : {E : Type 0} → Result E Text → ℤ
count_of (ok t) = atoi t
count_of (err e) = pos 0

-- "on" and "off"
abbrev pub on_text : Text
on_text = b'o' ∷ b'n' ∷ []

abbrev pub off_text : Text
off_text = b'o' ∷ b'f' ∷ b'f' ∷ []

module _ {R D : Type 0} (api : Client R Stored) (db : Db D) where
  abbrev pub Step : Type 0 → Type 0
  Step A = World R D → Result LogicError A × World R D

  abbrev pub enqueue : StatusMsg → Step Unit
  enqueue msg w =
      or_fail system (on_cache (redis_lpush api status_msg_queue (status_json msg)) w)
        (λ t w'. (ok tt, w'))

  -- An operation that is neither code queues the JSON of `nil`.
  unfoldable pub push_user_info : ℕ → Text → ℕ → ℕ → Step Unit
  push_user_info userid username friend_id op w =
      if op == op_friend_online_send
      then enqueue (friend_online_msg op userid username friend_id) w
      else if op == op_friend_off_online_send
      then enqueue (friend_offline_msg op userid friend_id) w
      else enqueue no_msg w

  unfoldable pub push_group_info : ℕ → ℕ → ℤ → List TUser → List ℤ → Step Unit
  push_group_info userid group_id online_count user_list online_user_id w =
      enqueue (group_info_msg op_group_info_send group_id online_count user_list online_user_id) w

  unfoldable pub push_group_count : ℕ → ℤ → Step Unit
  push_group_count group_id count w =
      enqueue (group_count_msg op_group_oline_user_count_send group_id count) w

  -- The end of each round over the groups, and of AddGroup: read the group's count and its online
  -- users, and queue them.
  unfoldable pub publish_group : ℕ → ℕ → Step Unit
  unfolding push_group_info
  publish_group userid val w =
      let (count, w1) = on_cache (redis_hget api group_online_user_count (decimal val)) w in
      or_fail system (on_cache (redis_hget_all api (group_online_user val)) w1) (λ user_map w2.
        or_fail system
          (push_group_info userid val (count_of count) (db.query_group_all_user val w2.db)
            (map (λ e. atoi e.0) user_map) w2)
          (λ t w3. (ok tt, w3)))

  -- has || HINCRBY
  abbrev pub count_up : Bool → ℕ → Step Unit
  count_up true val w = (ok tt, w)
  count_up false val w =
      or_fail system (on_cache (redis_hincr_by api group_online_user_count (decimal val) (pos 1)) w)
        (λ t w'. (ok tt, w'))

  abbrev pub count_down : Bool → ℕ → Step Unit
  count_down false val w = (ok tt, w)
  count_down true val w =
      or_fail system
        (on_cache (redis_hincr_by api group_online_user_count (decimal val) (negsuc 0)) w)
        (λ t w'. (ok tt, w'))

  -- The user's entry of one group, its count and the message of it.
  unfoldable pub enter_group : ℕ → Text → ℕ → Step Unit
  unfolding publish_group
  enter_group userid server_id val w =
      or_fail system
        (on_cache (redis_is_not_exist_hset api (group_online_user val) (decimal userid) server_id)
          w)
        (λ has w1. or_fail same (count_up has val w1) (λ t w2. publish_group userid val w2))

  unfoldable pub leave_group : ℕ → ℕ → Step Unit
  unfolding publish_group
  leave_group userid val w =
      or_fail system (on_cache (redis_hdel api (group_online_user val) (decimal userid)) w)
        (λ has w1. or_fail same (count_down has val w1) (λ t w2. publish_group userid val w2))

  -- a round for each element, up to the first error
  unfoldable pub for_each : (ℕ → Step Unit) → List ℕ → Step Unit
  for_each body [] w = (ok tt, w)
  for_each body (val ∷ rest) w = or_fail same (body val w) (λ t w'. for_each body rest w')

  -- What Connect does with the user of the session.
  unfoldable pub connect_user : TUser → Text → Step ℕ
  unfolding for_each enter_group push_user_info
  connect_user user server_id w =
      or_fail system
        (on_cache (redis_set_string api (userid_map_server_id user.id) (text server_id) 0) w)
        (λ t w1.
          let group_id_list = db.query_user_all_group_id user.id w1.db in
          let friend_id_list = db.query_user_all_friend_id user.id w1.db in
          or_fail system (on_cache (redis_hset api all_online_user (decimal user.id) on_text) w1)
            (λ t w2.
              or_fail same (for_each (enter_group user.id server_id) group_id_list w2) (λ t w3.
                or_fail system
                  (on_cache
                    (redis_set_string api (user_group_list user.id) (ids_json group_id_list) 0) w3)
                  (λ t w4.
                    or_fail system
                      (for_each
                        (λ val. push_user_info user.id user.username val op_friend_online_send)
                        friend_id_list w4)
                      (λ t w5.
                        or_fail system
                          (on_cache
                            (redis_set_string api (user_friend_list user.id)
                              (ids_json friend_id_list) 0)
                            w5)
                          (λ t w6. (ok user.id, w6)))))))

  unfoldable pub connect : Text → Text → Step ℕ
  unfolding connect_user
  connect access_token server_id w =
      or_fail system (on_cache (redis_get_string api (session access_token)) w) (λ res w1.
        if is_blank res
        then (err illegal_access_token, w1)
        else connect_user (as_user res) server_id w1)

  unfoldable pub dis_connect : ℕ → Step Unit
  unfolding for_each leave_group push_user_info
  dis_connect userid w =
      let group_id_list = db.query_user_all_group_id userid w.db in
      let friend_id_list = db.query_user_all_friend_id userid w.db in
      or_fail system (on_cache (redis_hset api all_online_user (decimal userid) off_text) w)
        (λ t w1. or_fail same (for_each (leave_group userid) group_id_list w1) (λ t w2.
          or_fail system
            (for_each (λ val. push_user_info userid [] val op_friend_off_online_send) friend_id_list
              w2)
            (λ t w3. (ok tt, w3))))

  -- The relation that cannot be created has the id 0.
  unfoldable pub add_group : ℕ → ℕ → Step Unit
  unfolding enter_group
  add_group userid group_id w =
      or_fail (λ e. add_group_failed)
        (on_cache (redis_get_string api (userid_map_server_id userid)) w)
        (λ server_id_byte w1.
          let user = db.query_user_by_id userid w1.db in
          let (relation_id, d) = db.create_relation group userid group_id w1.db in
          let w2 : World R D = record w1 { db = d } in
          if relation_id == 0
          then (err add_group_failed, w2)
          else let group_id_list = db.query_user_all_group_id user.id w2.db in
            or_fail same (enter_group user.id (as_text server_id_byte) group_id w2) (λ t w3.
              or_fail system
                (on_cache
                  (redis_set_string api (user_group_list user.id) (ids_json group_id_list) 0) w3)
                (λ t w4. (ok tt, w4))))

  unfoldable pub push_room_count : ℕ → Step Unit
  unfolding push_group_count
  push_room_count group_id w =
      let (count, w1) = on_cache (redis_hget api group_online_user_count (decimal group_id)) w in
      push_group_count group_id (count_of count) w1

  unfoldable pub push_room_info : ℕ → Step Unit
  unfolding publish_group
  push_room_info group_id w = publish_group 0 group_id w
