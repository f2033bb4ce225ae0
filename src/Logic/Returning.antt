-- ===== src/Logic/Returning.antt =====
-- When the redis servers are reachable and answer, Connect and DisConnect return without an error.
use axis_chat_server.Prelude.Atoi.{atoi}
use axis_chat_server.Prelude.{
  ℕ, ◌≡◌, refl, Bool, Bool-cases, true, false, inl, inr, List, [], ◌∷◌, map, Text, ◌==◌,
}
use axis_chat_server.Prelude.Decimal.{decimal}
use axis_chat_server.Prelude.Int.{pos, negsuc}
use axis_chat_server.Common.Param.{
  op_group_info_send, op_friend_online_send, op_friend_off_online_send,
}
use axis_chat_server.Common.Keys.{
  group_online_user, group_online_user_count, all_online_user, status_msg_queue,
}
use axis_chat_server.Common.Redis.{
  Client, Result, ok, err, redis_hset, redis_is_not_exist_hset, redis_hincr_by, redis_hdel,
  redis_hget, redis_hget_all, redis_lpush,
}
use axis_chat_server.Common.Redis.Answering.{
  Answers, Reachable, hset-Returns, hget_all-Returns, lpush-Returns, hincr_by-Returns,
  hget-Reachable, is_not_exist_hset-Returns, redis_hdel-Returns,
}
use axis_chat_server.Logic.Data.{
  Stored, status_json, Db, World, LogicError, or_fail, on_cache, system, same, StatusMsg,
  group_info_msg, friend_online_msg, friend_offline_msg, no_msg,
}
use axis_chat_server.Logic.Presence.{
  enter_group, leave_group, count_up, count_down, publish_group, for_each, dis_connect,
  push_user_info, push_group_info, enqueue, count_of, off_text, Step,
}

-- A step that returned without an error, with the servers reachable after it.
abbrev pub Done : {R D E A : Type 0} → Result E A × World R D → Type 0
Done x = (a : _) × (x.0 ≡ ok a) × Reachable x.1.cache

pub or_fail-Done :
    {R D E A B : Type 0} (fail : E → LogicError) (x : Result E A × World R D)
    (next : A → World R D → Result LogicError B × World R D)
    → Done x
    → ((a : A) (w : World R D) → Reachable w.cache → Done (next a w))
    → Done (or_fail fail x next)
or_fail-Done fail (ok a, w) next (b, e, reach) rest = rest a w reach
or_fail-Done fail (err r, w) next (b, e, reach) rest = cc

module _ {R : Type 0} (api : Client R Stored) (answers : Answers R Stored api) {D : Type 0}
    (db : Db D) where
  enqueue-Done : (msg : StatusMsg) (w : World R D) → Reachable w.cache → Done (enqueue api db msg w)
  enqueue-Done msg w reach =
      or_fail-Done system (on_cache (redis_lpush api status_msg_queue (status_json msg)) w)
        (λ t w'. (ok tt, w'))
        (lpush-Returns api answers status_msg_queue (status_json msg) w.cache reach)
        (λ t w' reach'. (tt, refl, reach'))

  pub push_user_info-Done :
      (userid : ℕ) (username : Text) (friend_id op : ℕ) (w : World R D)
      → Reachable w.cache
      → Done (push_user_info api db userid username friend_id op w)
  unfolding push_user_info
  push_user_info-Done userid username friend_id op w reach =
      elim (Bool-cases (op == op_friend_online_send)) [
        | inl online ↦
            rw (push_user_info, online)
              (enqueue-Done (friend_online_msg op userid username friend_id) w reach)
        | inr other ↦ elim (Bool-cases (op == op_friend_off_online_send)) [
          | inl offline ↦
              rw (push_user_info, other, offline)
                (enqueue-Done (friend_offline_msg op userid friend_id) w reach)
          | inr none_ ↦ rw (push_user_info, other, none_) (enqueue-Done no_msg w reach)
        ]
      ]

  publish_group-Done :
      (userid val : ℕ) (w : World R D)
      → Reachable w.cache
      → Done (publish_group api db userid val w)
  unfolding publish_group push_group_info
  publish_group-Done userid val w reach =
      let read = on_cache (redis_hget api group_online_user_count (decimal val)) w in
      or_fail-Done system (on_cache (redis_hget_all api (group_online_user val)) read.1) _
        (hget_all-Returns api answers (group_online_user val) read.1.cache
          (hget-Reachable api answers group_online_user_count (decimal val) w.cache reach))
        (λ user_map w2 reach2.
          or_fail-Done system
            (push_group_info api db userid val (count_of read.0) (db.query_group_all_user val w2.db)
              (map (λ e. atoi e.0) user_map) w2)
            (λ t w3. (ok tt, w3))
            (enqueue-Done
              (group_info_msg op_group_info_send val (count_of read.0)
                (db.query_group_all_user val w2.db) (map (λ e. atoi e.0) user_map))
              w2 reach2)
            (λ t w3 reach3. (tt, refl, reach3)))

  count_up-Done :
      (has : Bool) (val : ℕ) (w : World R D) → Reachable w.cache → Done (count_up api db has val w)
  count_up-Done true val w reach = (tt, refl, reach)
  count_up-Done false val w reach =
      or_fail-Done system
        (on_cache (redis_hincr_by api group_online_user_count (decimal val) (pos 1)) w)
        (λ t w'. (ok tt, w'))
        (hincr_by-Returns api answers group_online_user_count (decimal val) (pos 1) w.cache reach)
        (λ t w' reach'. (tt, refl, reach'))

  count_down-Done :
      (has : Bool) (val : ℕ) (w : World R D)
      → Reachable w.cache
      → Done (count_down api db has val w)
  count_down-Done false val w reach = (tt, refl, reach)
  count_down-Done true val w reach =
      or_fail-Done system
        (on_cache (redis_hincr_by api group_online_user_count (decimal val) (negsuc 0)) w)
        (λ t w'. (ok tt, w'))
        (hincr_by-Returns api answers group_online_user_count (decimal val) (negsuc 0) w.cache
          reach)
        (λ t w' reach'. (tt, refl, reach'))

  pub enter_group-Done :
      (userid : ℕ) (server_id : Text) (val : ℕ) (w : World R D)
      → Reachable w.cache
      → Done (enter_group api db userid server_id val w)
  unfolding enter_group
  enter_group-Done userid server_id val w reach =
      or_fail-Done system
        (on_cache (redis_is_not_exist_hset api (group_online_user val) (decimal userid) server_id)
          w)
        _
        (is_not_exist_hset-Returns api answers (group_online_user val) (decimal userid) server_id
          w.cache reach)
        (λ has w1 reach1.
          or_fail-Done same (count_up api db has val w1)
            (λ t w2. publish_group api db userid val w2) (count_up-Done has val w1 reach1)
            (λ t w2 reach2. publish_group-Done userid val w2 reach2))

  leave_group-Done :
      (userid val : ℕ) (w : World R D) → Reachable w.cache → Done (leave_group api db userid val w)
  unfolding leave_group
  leave_group-Done userid val w reach =
      or_fail-Done system (on_cache (redis_hdel api (group_online_user val) (decimal userid)) w) _
        (redis_hdel-Returns api answers (group_online_user val) (decimal userid) w.cache reach)
        (λ has w1 reach1.
          or_fail-Done same (count_down api db has val w1)
            (λ t w2. publish_group api db userid val w2) (count_down-Done has val w1 reach1)
            (λ t w2 reach2. publish_group-Done userid val w2 reach2))

  pub for_each-Done :
      (body : ℕ → Step api db Unit)
      → ((val : ℕ) (w : World R D) → Reachable w.cache → Done (body val w))
      → (vals : List ℕ) (w : World R D) → Reachable w.cache
      → Done (for_each api db body vals w)
  unfolding for_each
  for_each-Done body round [] w reach = (tt, refl, reach)
  for_each-Done body round (val ∷ vals) w reach =
      or_fail-Done same (body val w) (λ t w'. for_each api db body vals w') (round val w reach)
        (λ t w' reach'. for_each-Done body round vals w' reach')

  -- A DisConnect returns without an error when the servers are reachable and answer.
  pub dis_connect-Done :
      (userid : ℕ) (w : World R D) → Reachable w.cache → Done (dis_connect api db userid w)
  unfolding dis_connect
  dis_connect-Done userid w reach =
      or_fail-Done system (on_cache (redis_hset api all_online_user (decimal userid) off_text) w) _
        (hset-Returns api answers all_online_user (decimal userid) off_text w.cache reach)
        (λ t w1 reach1.
          or_fail-Done same
            (for_each api db (leave_group api db userid) (db.query_user_all_group_id userid w.db)
              w1)
            _
            (for_each-Done (leave_group api db userid)
              (λ val w' r. leave_group-Done userid val w' r)
              (db.query_user_all_group_id userid w.db) w1 reach1)
            (λ t w2 reach2.
              or_fail-Done system
                (for_each api db
                  (λ val. push_user_info api db userid [] val op_friend_off_online_send)
                  (db.query_user_all_friend_id userid w.db) w2)
                (λ t w3. (ok tt, w3))
                (for_each-Done
                  (λ val. push_user_info api db userid [] val op_friend_off_online_send)
                  (λ val w' r. push_user_info-Done userid [] val op_friend_off_online_send w' r)
                  (db.query_user_all_friend_id userid w.db) w2 reach2)
                (λ t w3 reach3. (tt, refl, reach3))))
