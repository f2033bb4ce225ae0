-- ===== src/Logic/Tests.antt =====
-- One user, a friend and a group, on one redis server.
use axis_chat_server.Prelude.{ℕ, ◌≡◌, refl, true, none, some, [], ◌∷◌, Text, ◌==◌, if◌then◌else◌}
use axis_chat_server.Common.Keys.{session, userid_map_token}
use axis_chat_server.Common.Redis.{Cluster, Result, ok, err}
use axis_chat_server.Common.Redis.Tests.{
  Server, client, server_hashes, server_strings, cluster_of, nothing, server_answers,
  cluster_of-Reachable,
}
use axis_chat_server.Logic.Data.{
  TUser, no_user, Stored, user_json, Db, Passwords, World, LogicError, is_blank, as_user,
  illegal_access_token, no_such_user, wrong_password,
}
use axis_chat_server.Logic.Presence.{connect, dis_connect}
use axis_chat_server.Logic.Accepting.{connect-accepts, login-accepts}
use axis_chat_server.Common.Redis.Strings.{string_at}
use axis_chat_server.Logic.Counting.{Presence}
use axis_chat_server.Logic.Connecting.{connect-Presence}
use axis_chat_server.Logic.Online.{dis_connect-Presence}
use axis_chat_server.Logic.Session.{register, login, login_out}
use axis_chat_server.Logic.Registering.{register-login-both_open}
use axis_chat_server.Logic.Tokens.{LoggedIn, login-LoggedIn, stored}

abbrev token : Text
token = b't' ∷ []

abbrev ann : TUser
ann = record no_user { id = 5; username = b'a' ∷ []; password = b'p' ∷ [] }

abbrev database : Db Unit
database = record {
  query_user_all_group_id = λ u d. 7 ∷ [];
  query_user_all_friend_id = λ u d. 6 ∷ [];
  query_group_all_user = λ g d. ann ∷ [];
  query_user_by_user_name = λ n d. ann;
  query_user_by_id = λ u d. ann;
  query_group_by_group_name = λ n d. 0;
  create_user = λ u d. (u, d);
  create_group = λ g d. (g, d);
  create_relation = λ t a b d. (1, d);
  update_user_password = λ u p d. (true, d);
}

abbrev plain : Passwords
plain = record { enc_password = λ p. p; verify_pwd = λ h p. true }

-- the session "t" of the user, and nothing else
abbrev with_session : World (Server Stored) Unit
with_session = record {
  cache = cluster_of (record nothing { strings = λ k. some (user_json ann) });
  db = tt;
}

abbrev fresh : World (Server Stored) Unit
fresh = record { cache = cluster_of nothing; db = tt }

with_session-Presence : Presence client server_hashes with_session.cache
unfolding axis_chat_server.Ring.get axis_chat_server.Ring.ring_key axis_chat_server.Ring.search
with_session-Presence = record { counted = λ g. refl; named = λ g f e. cc }

connects : (connect client database token (b's' ∷ []) with_session).0 ≡ ok 5
unfolding connect axis_chat_server.Common.Redis.redis_get_string axis_chat_server.Ring.get
    axis_chat_server.Ring.ring_key axis_chat_server.Ring.search
    axis_chat_server.Common.Redis.redis_set_string axis_chat_server.Common.Redis.redis_hset
    axis_chat_server.Common.Redis.redis_is_not_exist_hset
    axis_chat_server.Common.Redis.redis_hincr_by axis_chat_server.Common.Redis.redis_hget_all
    axis_chat_server.Common.Redis.redis_hget axis_chat_server.Common.Redis.redis_lpush
connects = refl

disconnects : (dis_connect client database 5 with_session).0 ≡ ok tt
unfolding dis_connect axis_chat_server.Ring.get axis_chat_server.Ring.ring_key
    axis_chat_server.Ring.search axis_chat_server.Common.Redis.redis_hset
    axis_chat_server.Common.Redis.redis_hdel axis_chat_server.Common.Redis.redis_hincr_by
    axis_chat_server.Common.Redis.redis_hget_all axis_chat_server.Common.Redis.redis_hget
    axis_chat_server.Common.Redis.redis_lpush
disconnects = refl

logs_in : (login client database plain (b'a' ∷ []) (b'p' ∷ []) token fresh).0 ≡ ok token
unfolding login axis_chat_server.Common.Redis.redis_get_string axis_chat_server.Ring.get
    axis_chat_server.Ring.ring_key axis_chat_server.Ring.search
    axis_chat_server.Common.Redis.redis_set_string axis_chat_server.Common.Redis.redis_del_string
logs_in = refl

logs_out : (login_out client database plain token with_session).0 ≡ ok tt
unfolding login_out axis_chat_server.Common.Redis.redis_get_string axis_chat_server.Ring.get
    axis_chat_server.Ring.ring_key axis_chat_server.Ring.search
    axis_chat_server.Common.Redis.redis_set_string axis_chat_server.Common.Redis.redis_del_string
logs_out = refl

connect-Presence_example :
    Presence client server_hashes (connect client database token (b's' ∷ []) with_session).1.cache
connect-Presence_example =
    connect-Presence client server_hashes database token (b's' ∷ []) 5 with_session (λ e. cc)
      with_session-Presence connects

dis_connect-Presence_example :
    Presence client server_hashes (dis_connect client database 5 with_session).1.cache
dis_connect-Presence_example =
    dis_connect-Presence client server_hashes database 5 with_session with_session-Presence
      disconnects

login-LoggedIn_example :
    (token ≡ token)
    × (plain.verify_pwd (database.query_user_by_user_name (b'a' ∷ []) tt).password (b'p' ∷ [])
        ≡ true)
    × LoggedIn client server_strings database plain ann token fresh
        (login client database plain (b'a' ∷ []) (b'p' ∷ []) token fresh).1
login-LoggedIn_example =
    login-LoggedIn client server_strings database plain (b'a' ∷ []) (b'p' ∷ []) token token fresh
      logs_in

connect-accepts_example : (connect client database token (b's' ∷ []) with_session).0 ≡ (
    if is_blank (string_at client server_strings (session token) with_session.cache)
    then err illegal_access_token
    else ok (as_user (string_at client server_strings (session token) with_session.cache)).id)
connect-accepts_example =
    connect-accepts client server_answers database server_strings token (b's' ∷ []) with_session
      (cluster_of-Reachable (record nothing { strings = λ k. some (user_json ann) }))

login-accepts_example : (login client database plain (b'a' ∷ []) (b'p' ∷ []) token fresh).0 ≡ (
    if (database.query_user_by_user_name (b'a' ∷ []) tt).id == 0
    then err no_such_user
    else if plain.verify_pwd (database.query_user_by_user_name (b'a' ∷ []) tt).password (b'p' ∷ [])
    then ok token
    else err wrong_password)
login-accepts_example =
    login-accepts client server_answers database plain (b'a' ∷ []) (b'p' ∷ []) token fresh
      (cluster_of-Reachable nothing)

-- a database whose one row is the user that was created last
abbrev one_row : Db TUser
one_row = record {
  query_user_all_group_id = λ u d. [];
  query_user_all_friend_id = λ u d. [];
  query_group_all_user = λ g d. [];
  query_user_by_user_name = λ n d. d;
  query_user_by_id = λ u d. d;
  query_group_by_group_name = λ n d. 0;
  create_user = λ u d. (record u { id = 5 }, record u { id = 5 });
  create_group = λ g d. (g, d);
  create_relation = λ t a b d. (1, d);
  update_user_password = λ u p d. (true, d);
}

abbrev empty_row : World (Server Stored) TUser
empty_row = record { cache = cluster_of nothing; db = no_user }

abbrev registration : Result LogicError (Text × ℕ) × World (Server Stored) TUser
registration = register client one_row plain (b'a' ∷ []) (b'p' ∷ []) [] token empty_row

abbrev other_token : Text
other_token = b'u' ∷ []

registers : registration.0 ≡ ok (token, 5)
unfolding register axis_chat_server.Common.Redis.redis_get_string axis_chat_server.Ring.get
    axis_chat_server.Ring.ring_key axis_chat_server.Ring.search
    axis_chat_server.Common.Redis.redis_set_string
registers = refl

registered : registration.1.db.id ≡ 5
unfolding register axis_chat_server.Common.Redis.redis_get_string axis_chat_server.Ring.get
    axis_chat_server.Ring.ring_key axis_chat_server.Ring.search
    axis_chat_server.Common.Redis.redis_set_string
registered = refl

logs_in_after :
    (login client one_row plain (b'a' ∷ []) (b'p' ∷ []) other_token registration.1).0
    ≡ ok other_token
unfolding register login axis_chat_server.Common.Redis.redis_get_string axis_chat_server.Ring.get
    axis_chat_server.Ring.ring_key axis_chat_server.Ring.search
    axis_chat_server.Common.Redis.redis_set_string axis_chat_server.Common.Redis.redis_del_string
logs_in_after = refl

nothing_mapped : stored client server_strings one_row plain (userid_map_token 5) empty_row ≡ none
unfolding axis_chat_server.Ring.get axis_chat_server.Ring.ring_key axis_chat_server.Ring.search
nothing_mapped = refl

register-login-both_open_example :
    (first_user : TUser) × (last_user : TUser) × (first_user.id ≡ 5)
    × (last_user.id ≡ 5)
    × (stored client server_strings one_row plain
          (session token)
          (login client one_row plain (b'a' ∷ []) (b'p' ∷ []) other_token registration.1).1
        ≡ some (user_json first_user))
    × (stored client server_strings one_row plain
          (session other_token)
          (login client one_row plain (b'a' ∷ []) (b'p' ∷ []) other_token registration.1).1
        ≡ some (user_json last_user))
register-login-both_open_example =
    register-login-both_open client server_strings one_row plain (b'a' ∷ []) (b'p' ∷ []) [] token
      token 5 empty_row (b'p' ∷ []) other_token other_token registers registered logs_in_after refl
      nothing_mapped
