-- ===== src/Logic/Tokens.antt =====
-- The sessions after a login and a logout.
use axis_chat_server.Prelude.{
  ◌≡◌, refl, ◌≢◌, Bool-cases, true, false, inl, inr, Option, none, some, [], ◌∷◌, Text, ◌=text◌,
  eq_of_=text, ◌==◌, if◌then◌else◌, ap, sym, ◌∙◌, subst,
}
use axis_chat_server.Common.Keys.{session, userid_map_token}
use axis_chat_server.Common.Redis.{
  Client, ok, err, redis_set_string, redis_get_string, redis_del_string,
}
use axis_chat_server.Common.Redis.Strings.{Strings, string_at, get-string, set-Stores, del-Stores}
use axis_chat_server.Logic.Data.{
  TUser, Stored, text, user_json, ids_json, status_json, as_user, as_text, Db, Passwords, World,
  or_fail, on_cache, system, no_user_info, no_such_user, wrong_password, logout_failed,
}
use axis_chat_server.Logic.Session.{
  login, open_session, drop_session, login_out, close_session, redis_base_valid_time,
}
use axis_chat_server.Logic.Frames.{or_fail-ok, guard-ok, require-ok}

as_text-some : (o : Option Stored) → as_text o ≢ [] → o ≡ some (text (as_text o))
as_text-some none named = absurd (named refl)
as_text-some (some (text t)) named = refl
as_text-some (some (user_json user)) named = absurd (named refl)
as_text-some (some (ids_json ids)) named = absurd (named refl)
as_text-some (some (status_json msg)) named = absurd (named refl)

as_user-some :
    (o : Option Stored) → ((as_user o).id == 0) ≡ false → o ≡ some (user_json (as_user o))
as_user-some none known = cc
as_user-some (some (text t)) known = cc
as_user-some (some (user_json user)) known = refl
as_user-some (some (ids_json ids)) known = cc
as_user-some (some (status_json msg)) known = cc

module _ {R : Type 0} (api : Client R Stored) (strings : Strings R Stored api) {D : Type 0}
    (db : Db D) (passwords : Passwords) where
  abbrev pub stored : Text → World R D → Option Stored
  stored key w = string_at api strings key w.cache

  -- The old session of a user is gone, unless its token is the new one, and the new token stands
  -- for the user.
  pub record LoggedIn (user : TUser) (token : Text) (w w' : World R D) : Type 0 where
    pub session_of : stored (session token) w' ≡ some (user_json user)
    pub token_of : stored (userid_map_token user.id) w' ≡ some (text token)
    pub replaced :
        (old : Text)
        → stored (userid_map_token user.id) w ≡ some (text old)
        → old ≢ []
        → (token =text old) ≡ false
        → stored (session old) w' ≡ none
    pub others :
        (other : Text)
        → (token =text other) ≡ false
        → stored (userid_map_token user.id) w ≢ some (text other)
        → stored (session other) w' ≡ stored (session other) w

  -- What the removal of an old session did.
  record Dropped (old : Text) (w w' : World R D) : Type 0 where
    gone : old ≢ [] → stored (session old) w' ≡ none
    rest :
        (other : Text)
        → (old ≢ [] → (old =text other) ≡ false)
        → stored (session other) w' ≡ stored (session other) w

  drop_session-Dropped :
      (old : Text) (w : World R D)
      → (drop_session api db passwords old w).0 ≡ ok tt
      → Dropped old w (drop_session api db passwords old w).1
  drop_session-Dropped [] w e = record {
    gone = λ named. absurd (named refl);
    rest = λ other apart. refl;
  }
  drop_session-Dropped (b ∷ bs) w e =
      let (a, good, ran) =
        or_fail-ok (λ e. logout_failed) (on_cache (redis_del_string api (session (b ∷ bs))) w)
          (λ t w'. (ok tt, w')) tt e in
      let s = del-Stores api strings (session (b ∷ bs)) w.cache a good in
      subst (λ q. Dropped (b ∷ bs) w q.1) (sym ran)
        (record {
          gone = λ named. s.here;
          rest = λ other apart. s.others (session other) (apart (λ h. cc));
        })

  open_session-LoggedIn :
      (user : TUser) (token token' : Text) (w : World R D)
      → (open_session api db passwords user token w).0 ≡ ok token'
      → (token' ≡ token) × LoggedIn user token w (open_session api db passwords user token w).1
  unfolding open_session
  open_session-LoggedIn user token token' w e =
      let map_key = userid_map_token user.id in
      let got = on_cache (redis_get_string api map_key) w in
      let set_map = λ (t : Unit {0}) (w3 : World R D).
        or_fail system
          (on_cache (redis_set_string api map_key (text token) redis_base_valid_time) w3)
          (λ (t : Unit {0}) (w4 : World R D). (ok token, w4)) in
      let set_session = λ (t : Unit {0}) (w2 : World R D).
        or_fail system
          (on_cache (redis_set_string api (session token) (user_json user) redis_base_valid_time)
            w2)
          set_map in
      let (old, good, ran) =
        or_fail-ok system got
          (λ old w1. or_fail (λ e. e) (drop_session api db passwords (as_text old) w1) set_session)
          token' e in
      let dropped = drop_session api db passwords (as_text old) got.1 in
      let (t, good2, ran2) =
        or_fail-ok (λ e. e) dropped set_session token' (sym (ap (λ q. q.0) ran) ∙ e) in
      let stored3 =
        on_cache (redis_set_string api (session token) (user_json user) redis_base_valid_time)
          dropped.1 in
      let (t3, good3, ran3) =
        or_fail-ok system stored3 set_map token' (sym (ap (λ q. q.0) (ran ∙ ran2)) ∙ e) in
      let stored4 =
        on_cache (redis_set_string api map_key (text token) redis_base_valid_time) stored3.1 in
      let (t4, good4, ran4) =
        or_fail-ok system stored4 (λ t w4. (ok token, w4)) token'
          (sym (ap (λ q. q.0) (ran ∙ ran2 ∙ ran3)) ∙ e) in
      let (was, kept) = get-string api strings map_key w.cache old good in
      let d = drop_session-Dropped (as_text old) got.1 good2 in
      let s3 =
        set-Stores api strings (session token) (user_json user) redis_base_valid_time
          dropped.1.cache good3 in
      let s4 =
        set-Stores api strings map_key (text token) redis_base_valid_time stored3.1.cache good4 in
      let later = λ (o : Text) (apart : (token =text o) ≡ false).
        s4.others (session o) refl ∙ s3.others (session o) apart in
      let given : ok token ≡ ok token' = sym (ap (λ q. q.0) (ran ∙ ran2 ∙ ran3 ∙ ran4)) ∙ e in
      (
        cc,
        subst (λ q. LoggedIn user token w q.1) (sym (ran ∙ ran2 ∙ ran3 ∙ ran4))
            (record {
              session_of = s4.others (session token) refl ∙ s3.here;
              token_of = s4.here;
              replaced = λ o h named apart.
                  let same : as_text old ≡ o = ap as_text (sym was ∙ h) in
                  later o apart
                  ∙ subst (λ x. x ≢ [] → stored (session x) dropped.1 ≡ none) same d.gone named;
              others = λ o apart not_old.
                  later o apart
                  ∙ d.rest o (λ named. elim (Bool-cases (as_text old =text o)) [
                    | inr other ↦ other
                    | inl hit ↦ absurd (
                        not_old (
                          was
                          ∙ as_text-some old named
                          ∙ ap (λ x. some (text x)) (eq_of_=text (as_text old) o hit)))
                  ])
                  ∙ kept (session o);
            }),
      )

  -- A Login that returns without an error gives the new token, for a user of that name whose
  -- password is right. The session of the token is then that user's, and the user's token is it; the
  -- session of the user's token before, unless that is the new one, is gone; and the session of any
  -- other token is as it was.
  pub login-LoggedIn :
      (username password token token' : Text) (w : World R D)
      → (login api db passwords username password token w).0 ≡ ok token'
      → (token' ≡ token)
        × (passwords.verify_pwd (db.query_user_by_user_name username w.db).password password ≡ true)
        × LoggedIn
            (db.query_user_by_user_name username w.db)
            token
            w
            (login api db passwords username password token w).1
  unfolding login
  login-LoggedIn username password token token' w e =
      let user = db.query_user_by_user_name username w.db in
      let opened = open_session api db passwords user token w in
      let checked =
        (if passwords.verify_pwd user.password password then opened else (err wrong_password, w)) in
      let (known, ran) = guard-ok (user.id == 0) no_such_user w checked token' e in
      let (right, ran2) =
        require-ok (passwords.verify_pwd user.password password) wrong_password w opened token'
          (sym (ap (λ q. q.0) ran) ∙ e) in
      let (same, logged) =
        open_session-LoggedIn user token token' w (sym (ap (λ q. q.0) (ran ∙ ran2)) ∙ e) in
      (same, right, subst (λ q. LoggedIn user token w q.1) (sym (ran ∙ ran2)) logged)

  -- A LoginOut that returns without an error leaves no session of its token, and no token of the
  -- user whose session that was.
  pub login_out-gone :
      (access_token : Text) (w : World R D)
      → (login_out api db passwords access_token w).0 ≡ ok tt
      → (user : TUser) × (stored (session access_token) w ≡ some (user_json user))
        × (stored (session access_token) (login_out api db passwords access_token w).1 ≡ none)
        × (stored (userid_map_token user.id) (login_out api db passwords access_token w).1 ≡ none)
  unfolding login_out close_session
  login_out-gone access_token w e =
      let got = on_cache (redis_get_string api (session access_token)) w in
      let (res, good, ran) =
        or_fail-ok system got
          (λ res w1.
            if (as_user res).id == 0
            then (err no_user_info, w1)
            else close_session api db passwords (as_user res) access_token w1)
          tt e in
      let user = as_user res in
      let (known, ran2) =
        guard-ok (user.id == 0) no_user_info got.1
          (close_session api db passwords user access_token got.1) tt
          (sym (ap (λ q. q.0) ran) ∙ e) in
      let unmapped = on_cache (redis_del_string api (userid_map_token user.id)) got.1 in
      let close = λ (t : Option (Unit {0})) (w1 : World R D).
        or_fail system (on_cache (redis_del_string api (session access_token)) w1)
          (λ t w2. (ok tt, w2)) in
      let (t3, good3, ran3) =
        or_fail-ok system unmapped close tt (sym (ap (λ q. q.0) (ran ∙ ran2)) ∙ e) in
      let closed = on_cache (redis_del_string api (session access_token)) unmapped.1 in
      let (t4, good4, ran4) =
        or_fail-ok system closed (λ t w2. (ok tt, w2)) tt
          (sym (ap (λ q. q.0) (ran ∙ ran2 ∙ ran3)) ∙ e) in
      let (was, kept) = get-string api strings (session access_token) w.cache res good in
      let s3 = del-Stores api strings (userid_map_token user.id) got.1.cache t3 good3 in
      let s4 = del-Stores api strings (session access_token) unmapped.1.cache t4 good4 in
      let all = ran ∙ ran2 ∙ ran3 ∙ ran4 in
      (
        user,
        was ∙ as_user-some res known,
        ap (λ q. stored (session access_token) q.1) all ∙ s4.here,
        ap (λ q. stored (userid_map_token user.id) q.1) all
            ∙ s4.others (userid_map_token user.id) refl
            ∙ s3.here,
      )
