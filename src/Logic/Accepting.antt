-- ===== src/Logic/Accepting.antt =====
-- Connect accepts exactly the tokens that have a session.
use axis_chat_server.Prelude.{
  ◌≡◌, refl, Bool-cases, inl, inr, [], ◌∷◌, ◌==◌, Text, if◌then◌else◌, sym, subst,
}
use axis_chat_server.Prelude.Decimal.{decimal}
use axis_chat_server.Common.Param.{op_friend_online_send}
use axis_chat_server.Common.Keys.{
  session, userid_map_token, userid_map_server_id, user_group_list, user_friend_list,
  all_online_user,
}
use axis_chat_server.Common.Redis.{
  Client, Result, ok, err, redis_get_string, redis_set_string, redis_del_string, redis_hset,
}
use axis_chat_server.Common.Redis.Strings.{Strings, string_at, get-string}
use axis_chat_server.Common.Redis.Answering.{
  Answers, Reachable, set_string-Returns, get_string-Returns, del_string-Returns, hset-Returns,
}
use axis_chat_server.Logic.Data.{
  Stored, text, ids_json, as_user, is_blank, Db, World, LogicError, or_fail, on_cache, system, same,
  TUser, illegal_access_token, Passwords, user_json, as_text, logout_failed, no_such_user,
  wrong_password,
}
use axis_chat_server.Logic.Session.{login, open_session, drop_session, redis_base_valid_time}
use axis_chat_server.Logic.Presence.{
  enter_group, for_each, connect, connect_user, push_user_info, on_text,
}
use axis_chat_server.Logic.Returning.{
  Done, or_fail-Done, for_each-Done, enter_group-Done, push_user_info-Done,
}

or_fail-result :
    {R D E A B : Type 0} (fail : E → LogicError) (x : Result E A × World R D)
    (next : A → World R D → Result LogicError B × World R D) (b : Result LogicError B)
    → Done x
    → ((a : A) (w : World R D) → x.0 ≡ ok a → Reachable w.cache → (next a w).0 ≡ b)
    → (or_fail fail x next).0 ≡ b
or_fail-result fail (ok a, w) next b (c, e, reach) rest = rest a w refl reach
or_fail-result fail (err r, w) next b (c, e, reach) rest = cc

module _ {R : Type 0} (api : Client R Stored) (answers : Answers R Stored api) {D : Type 0}
    (db : Db D) where
  connect_user-result :
      (user : TUser) (server_id : Text) (w : World R D)
      → Reachable w.cache
      → (connect_user api db user server_id w).0 ≡ ok user.id
  unfolding connect_user
  connect_user-result user server_id w reach =
      or_fail-result system
        (on_cache (redis_set_string api (userid_map_server_id user.id) (text server_id) 0) w) _
        (ok user.id)
        (set_string-Returns api answers (userid_map_server_id user.id) (text server_id) 0 w.cache
          reach)
        (λ t w1 e1 reach1.
          let groups = db.query_user_all_group_id user.id w1.db in
          let friends = db.query_user_all_friend_id user.id w1.db in
          or_fail-result system
            (on_cache (redis_hset api all_online_user (decimal user.id) on_text) w1) _ (ok user.id)
            (hset-Returns api answers all_online_user (decimal user.id) on_text w1.cache reach1)
            (λ t w2 e2 reach2.
              or_fail-result same (for_each api db (enter_group api db user.id server_id) groups w2)
                _ (ok user.id)
                (for_each-Done api answers db (enter_group api db user.id server_id)
                  (λ val w' r. enter_group-Done api answers db user.id server_id val w' r) groups w2
                  reach2)
                (λ t w3 e3 reach3.
                  or_fail-result system
                    (on_cache (redis_set_string api (user_group_list user.id) (ids_json groups) 0)
                      w3)
                    _ (ok user.id)
                    (set_string-Returns api answers (user_group_list user.id) (ids_json groups) 0
                      w3.cache reach3)
                    (λ t w4 e4 reach4.
                      or_fail-result system
                        (for_each api db
                          (λ val.
                            push_user_info api db user.id user.username val op_friend_online_send)
                          friends w4)
                        _ (ok user.id)
                        (for_each-Done api answers db
                          (λ val.
                            push_user_info api db user.id user.username val op_friend_online_send)
                          (λ val w' r.
                            push_user_info-Done api answers db user.id user.username val
                              op_friend_online_send w' r)
                          friends w4 reach4)
                        (λ t w5 e5 reach5.
                          or_fail-result system
                            (on_cache
                              (redis_set_string api (user_friend_list user.id) (ids_json friends) 0)
                              w5)
                            (λ t w6. (ok user.id, w6)) (ok user.id)
                            (set_string-Returns api answers (user_friend_list user.id)
                              (ids_json friends) 0 w5.cache reach5)
                            (λ t w6 e6 reach6. refl))))))

  -- When the redis servers are reachable and answer, Connect returns the id of the user whose session
  -- the token has, and the error of an illegal token when it has none.
  pub connect-accepts :
      (strings : Strings R Stored api) (access_token server_id : Text) (w : World R D)
      → Reachable w.cache
      → (connect api db access_token server_id w).0 ≡ (
          if is_blank (string_at api strings (session access_token) w.cache)
          then err illegal_access_token
          else ok (as_user (string_at api strings (session access_token) w.cache)).id)
  unfolding connect
  connect-accepts strings access_token server_id w reach =
      let o = string_at api strings (session access_token) w.cache in
      or_fail-result system (on_cache (redis_get_string api (session access_token)) w)
        (λ res w1.
          if is_blank res
          then (err illegal_access_token, w1)
          else connect_user api db (as_user res) server_id w1)
        (if is_blank o then err illegal_access_token else ok (as_user o).id)
        (get_string-Returns api answers (session access_token) w.cache reach)
        (λ res w1 got reach1.
          let (was, kept) = get-string api strings (session access_token) w.cache res got in
          subst
            (λ q.
              (if is_blank res
                then (err illegal_access_token, w1)
                else connect_user api db (as_user res) server_id w1).0
              ≡ (if is_blank q then err illegal_access_token else ok (as_user q).id))
            (sym was)
            (elim (Bool-cases (is_blank res)) [
              | inl blank ↦ rw blank refl
              | inr stored ↦ rw stored (connect_user-result (as_user res) server_id w1 reach1)
            ]))

  module _ (passwords : Passwords) where
    drop_session-Done :
        (old : Text) (w : World R D)
        → Reachable w.cache
        → Done (drop_session api db passwords old w)
    drop_session-Done [] w reach = (tt, refl, reach)
    drop_session-Done (b ∷ bs) w reach =
        or_fail-Done (λ e. logout_failed) (on_cache (redis_del_string api (session (b ∷ bs))) w)
          (λ t w'. (ok tt, w')) (del_string-Returns api answers (session (b ∷ bs)) w.cache reach)
          (λ t w' reach'. (tt, refl, reach'))

    open_session-result :
        (user : TUser) (token : Text) (w : World R D)
        → Reachable w.cache
        → (open_session api db passwords user token w).0 ≡ ok token
    unfolding open_session
    open_session-result user token w reach =
        or_fail-result system (on_cache (redis_get_string api (userid_map_token user.id)) w) _
          (ok token) (get_string-Returns api answers (userid_map_token user.id) w.cache reach)
          (λ old w1 e1 reach1.
            or_fail-result (λ e. e) (drop_session api db passwords (as_text old) w1) _ (ok token)
              (drop_session-Done (as_text old) w1 reach1)
              (λ t w2 e2 reach2.
                or_fail-result system
                  (on_cache
                    (redis_set_string api (session token) (user_json user) redis_base_valid_time)
                    w2)
                  _ (ok token)
                  (set_string-Returns api answers (session token) (user_json user)
                    redis_base_valid_time w2.cache reach2)
                  (λ t w3 e3 reach3.
                    or_fail-result system
                      (on_cache
                        (redis_set_string api (userid_map_token user.id) (text token)
                          redis_base_valid_time)
                        w3)
                      (λ t w4. (ok token, w4)) (ok token)
                      (set_string-Returns api answers (userid_map_token user.id) (text token)
                        redis_base_valid_time w3.cache reach3)
                      (λ t w4 e4 reach4. refl))))

    -- When the redis servers are reachable and answer, Login returns the token exactly for a user
    -- that exists and whose password is right, and else the error that says which is not so.
    pub login-accepts :
        (username password token : Text) (w : World R D)
        → Reachable w.cache
        → (login api db passwords username password token w).0 ≡ (
            if (db.query_user_by_user_name username w.db).id == 0
            then err no_such_user
            else if passwords.verify_pwd
                (db.query_user_by_user_name username w.db).password
                password
            then ok token
            else err wrong_password)
    unfolding login
    login-accepts username password token w reach =
        let user = db.query_user_by_user_name username w.db in
        elim (Bool-cases (user.id == 0)) [
          | inl unknown ↦ rw unknown refl
          | inr known ↦ elim (Bool-cases (passwords.verify_pwd user.password password)) [
            | inl right ↦ rw (known, right) (open_session-result user token w reach)
            | inr wrong ↦ rw (known, wrong) refl
          ]
        ]
