-- ===== src/Logic/Session.antt =====
-- logic/rpc.go: registration, login and logout, the user of a token, the password, groups and
-- friends.
use axis_chat_server.Prelude.{ℕ, not, [], ◌∷◌, Text, ◌=text◌, ◌==◌, if◌then◌else◌}
use axis_chat_server.Common.Keys.{session, userid_map_token}
use axis_chat_server.Common.Redis.{
  Client, Result, ok, err, redis_set_string, redis_get_string, redis_del_string,
}
use axis_chat_server.Logic.Data.{
  TUser, TGroup, friend, Stored, text, user_json, is_blank, as_user, as_text, Db, Passwords, World,
  LogicError, system_error, illegal_access_token, user_exists, no_such_user, wrong_password,
  logout_failed, no_user_info, passwords_differ, group_name_used, create_group_failed,
  add_group_failed, redis_error, or_fail, system, on_cache,
}

-- config.RedisBaseValidTime, in seconds
abbrev pub redis_base_valid_time : ℕ
redis_base_valid_time = 86400

module _ {R D : Type 0} (api : Client R Stored) (db : Db D) (passwords : Passwords) where
  -- the token and the id of the new user
  unfoldable pub register :
      Text → Text → Text → Text → World R D → Result LogicError (Text × ℕ) × World R D
  register username password default_avatar access_token w =
      let user = db.query_user_by_user_name username w.db in
      let pwd = passwords.enc_password password in
      if not (user.id == 0)
      then (err user_exists, w)
      else if pwd =text []
      then (err system_error, w)
      else let new : TUser = record user {
        username = username;
        password = pwd;
        avatar = default_avatar;
      } in
        let (created, d) = db.create_user new w.db in
        let w1 : World R D = record w { db = d } in
        if created.id == 0
        then (err system_error, w1)
        else or_fail redis_error
            (on_cache
              (redis_set_string api (session access_token) (user_json created)
                redis_base_valid_time)
              w1)
            (λ t w2. (ok (access_token, created.id), w2))

  -- the session of the token that the user had, if any
  abbrev pub drop_session : Text → World R D → Result LogicError Unit × World R D
  drop_session [] w = (ok tt, w)
  drop_session (b ∷ bs) w =
      or_fail (λ e. logout_failed) (on_cache (redis_del_string api (session (b ∷ bs))) w)
        (λ t w'. (ok tt, w'))

  -- What Login does for a user whose password is right.
  unfoldable pub open_session : TUser → Text → World R D → Result LogicError Text × World R D
  open_session user token w =
      or_fail system (on_cache (redis_get_string api (userid_map_token user.id)) w) (λ old w1.
        or_fail (λ e. e) (drop_session (as_text old) w1)
          (λ t w2.
            or_fail system
              (on_cache
                (redis_set_string api (session token) (user_json user) redis_base_valid_time) w2)
              (λ t w3.
                or_fail system
                  (on_cache
                    (redis_set_string api (userid_map_token user.id) (text token)
                      redis_base_valid_time)
                    w3)
                  (λ t w4. (ok token, w4)))))

  unfoldable pub login : Text → Text → Text → World R D → Result LogicError Text × World R D
  unfolding open_session
  login username password token w =
      let user = db.query_user_by_user_name username w.db in
      if user.id == 0
      then (err no_such_user, w)
      else if passwords.verify_pwd user.password password
      then open_session user token w
      else (err wrong_password, w)

  unfoldable pub close_session : TUser → Text → World R D → Result LogicError Unit × World R D
  close_session user access_token w =
      or_fail system (on_cache (redis_del_string api (userid_map_token user.id)) w) (λ t w1.
        or_fail system (on_cache (redis_del_string api (session access_token)) w1)
          (λ t w2. (ok tt, w2)))

  unfoldable pub login_out : Text → World R D → Result LogicError Unit × World R D
  unfolding close_session
  login_out access_token w =
      or_fail system (on_cache (redis_get_string api (session access_token)) w) (λ res w1.
        if (as_user res).id == 0
        then (err no_user_info, w1)
        else close_session (as_user res) access_token w1)

  unfoldable pub get_user_info_by_access_token :
      Text → World R D → Result LogicError TUser × World R D
  get_user_info_by_access_token access_token w =
      or_fail system (on_cache (redis_get_string api (session access_token)) w)
        (λ res w1. if is_blank res then (err illegal_access_token, w1) else (ok (as_user res), w1))

  unfoldable pub get_user_info_by_userid : ℕ → World R D → Result LogicError TUser
  get_user_info_by_userid userid w =
      let user = db.query_user_by_id userid w.db in
      if user.id == 0 then err no_such_user else ok user

  unfoldable pub update_password :
      ℕ → Text → Text → Text → World R D → Result LogicError Unit × World R D
  update_password userid old_password new_password1 new_password2 w =
      let user = db.query_user_by_id userid w.db in
      let pwd = passwords.enc_password new_password1 in
      let (updated, d) = db.update_user_password user.id pwd w.db in
      if not (new_password2 =text new_password1)
      then (err passwords_differ, w)
      else if user.id == 0
      then (err no_such_user, w)
      else if not (passwords.verify_pwd user.password old_password)
      then (err wrong_password, w)
      else if pwd =text []
      then (err system_error, w)
      else (if updated then ok tt else err system_error, record w { db = d })

  -- The notice of the new group is its name, whatever the request says.
  unfoldable pub create_group : TGroup → World R D → Result LogicError TGroup × World R D
  create_group request w =
      let new : TGroup = record {
        id = 0;
        userid = request.userid;
        group_name = request.group_name;
        notice = request.group_name;
      } in
      let (created, d) = db.create_group new w.db in
      if not (db.query_group_by_group_name request.group_name w.db == 0)
      then (err group_name_used, w)
      else if created.id == 0
      then (err create_group_failed, record w { db = d })
      else (ok created, record w { db = d })

  unfoldable pub add_friend : ℕ → ℕ → World R D → Result LogicError Unit × World R D
  add_friend userid friend_id w =
      let (relation_id, d) = db.create_relation friend userid friend_id w.db in
      (if relation_id == 0 then err add_group_failed else ok tt, record w { db = d })
