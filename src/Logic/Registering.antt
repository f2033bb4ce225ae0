-- ===== src/Logic/Registering.antt =====
-- The sessions after a registration (Register of logic/rpc.go), and after the login that follows it.
use axis_chat_server.Prelude.{
  ℕ, arith, ◌≡◌, refl, false, not, some, none, [], Text, ◌=text◌, ◌==◌, if◌then◌else◌, ap, sym, ◌∙◌,
  subst,
}
use axis_chat_server.Common.Keys.{session, userid_map_token}
use axis_chat_server.Common.Redis.{Client, Result, ok, err, redis_set_string}
use axis_chat_server.Common.Redis.Strings.{Strings, set-Stores}
use axis_chat_server.Logic.Data.{
  TUser, Stored, text, user_json, Db, Passwords, World, LogicError, or_fail, on_cache, user_exists,
  system_error, redis_error,
}
use axis_chat_server.Logic.Session.{register, login, redis_base_valid_time}
use axis_chat_server.Logic.Tokens.{stored, login-LoggedIn}
use axis_chat_server.Logic.Frames.{or_fail-ok, guard-ok}

zero_of : (n : ℕ) → not (n == 0) ≡ false → n ≡ 0
zero_of n e = ground arith

module _ {R : Type 0} (api : Client R Stored) (strings : Strings R Stored api) {D : Type 0}
    (db : Db D) (passwords : Passwords) where
  -- The user was stored by the database under a new id; the session of the token is that user's, and
  -- no other string of the cache changed.
  pub record Registered (token : Text) (id : ℕ) (user : TUser) (w w' : World R D) : Type 0 where
    pub user_id : user.id ≡ id
    pub session_of : stored api strings db passwords (session token) w' ≡ some (user_json user)
    pub others :
        (key : Text)
        → (session token =text key) ≡ false
        → stored api strings db passwords key w' ≡ stored api strings db passwords key w

  -- the row that a registration hands to the database
  abbrev new_user : Text → Text → Text → World R D → TUser
  new_user username password avatar w = record (db.query_user_by_user_name username w.db) {
    username = username;
    password = passwords.enc_password password;
    avatar = avatar;
  }

  -- A Register that returns without an error gives the new token and the id of the user that the
  -- database created, for a name that no user had; the session of the token is that user's, and every
  -- other string of the cache is as it was, the user's token among them.
  pub register-Registered :
      (username password avatar token token' : Text) (id : ℕ) (w : World R D)
      → (register api db passwords username password avatar token w).0 ≡ ok (token', id)
      → (token' ≡ token)
        × ((db.query_user_by_user_name username w.db).id ≡ 0)
        × Registered token id
            (db.create_user (new_user username password avatar w) w.db).0
            w
            (register api db passwords username password avatar token w).1
  unfolding register
  register-Registered username password avatar token token' id w e =
      let user = db.query_user_by_user_name username w.db in
      let created = (db.create_user (new_user username password avatar w) w.db).0 in
      let w1 : World R D = record w {
        db = (db.create_user (new_user username password avatar w) w.db).1;
      } in
      let set =
        on_cache (redis_set_string api (session token) (user_json created) redis_base_valid_time)
          w1 in
      let answer : Unit {0} → World R D → Result LogicError (Text × ℕ) × World R D =
        λ t w2. (ok (token, created.id), w2) in
      let last = or_fail redis_error set answer in
      let made = if created.id == 0 then (err system_error, w1) else last in
      let hashed =
        if passwords.enc_password password =text [] then (err system_error, w) else made in
      let (free, ran) = guard-ok (not (user.id == 0)) user_exists w hashed (token', id) e in
      let (some_hash, ran2) =
        guard-ok (passwords.enc_password password =text []) system_error w made (token', id)
          (sym (ap (λ q. q.0) ran) ∙ e) in
      let (known, ran3) =
        guard-ok (created.id == 0) system_error w1 last (token', id)
          (sym (ap (λ q. q.0) (ran ∙ ran2)) ∙ e) in
      let (t, good, ran4) =
        or_fail-ok redis_error set answer (token', id)
          (sym (ap (λ q. q.0) (ran ∙ ran2 ∙ ran3)) ∙ e) in
      let all = ran ∙ ran2 ∙ ran3 ∙ ran4 in
      let s =
        set-Stores api strings (session token) (user_json created) redis_base_valid_time w1.cache
          good in
      let given : (answer tt w1).0 ≡ ok (token', id) = sym (ap (λ q. q.0) all) ∙ e in
      (
        cc,
        zero_of user.id free,
        subst (λ q. Registered token id created w q.1) (sym all)
            (record {
              user_id = cc;
              session_of = s.here;
              others = λ key apart. s.others key apart;
            }),
      )

  -- After a Register and a Login of the same user with another token, both without an error, both
  -- tokens have that user's session, when no token was kept for the user's id before: a registration
  -- does not record its token, so the login finds no session to end.
  pub register-login-both_open :
      (username password avatar token token' : Text) (id : ℕ) (w : World R D)
      (again second second' : Text)
      → (register api db passwords username password avatar token w).0 ≡ ok (token', id)
      → (db.query_user_by_user_name username
          (register api db passwords username password avatar token w).1.db).id
        ≡ id
      → (login api db passwords username again second
          (register api db passwords username password avatar token w).1).0
        ≡ ok second'
      → (second =text token) ≡ false
      → stored api strings db passwords (userid_map_token id) w ≡ none
      → (first_user : TUser) × (last_user : TUser) × (first_user.id ≡ id)
        × (last_user.id ≡ id)
        × (stored api strings db passwords
              (session token)
              (login api db passwords username again second
                (register api db passwords username password avatar token w).1).1
            ≡ some (user_json first_user))
        × (stored api strings db passwords
              (session second)
              (login api db passwords username again second
                (register api db passwords username password avatar token w).1).1
            ≡ some (user_json last_user))
  register-login-both_open username password avatar token token' id w again second second' e found
        e2 apart none_before =
      let w1 = (register api db passwords username password avatar token w).1 in
      let (same, free, r) = register-Registered username password avatar token token' id w e in
      let (same2, right, l) =
        login-LoggedIn api strings db passwords username again second second' w1 e2 in
      let user = db.query_user_by_user_name username w1.db in
      let unmapped : stored api strings db passwords (userid_map_token user.id) w1 ≡ none =
        r.others (userid_map_token user.id) refl
        ∙ ap (λ i. stored api strings db passwords (userid_map_token i) w) found
        ∙ none_before in
      (
        (db.create_user (new_user username password avatar w) w.db).0,
        user,
        r.user_id,
        found,
        l.others token apart
              (λ mapped. let bad : none ≡ some (text token) = sym unmapped ∙ mapped in absurd cc)
            ∙ r.session_of,
        l.session_of,
      )
