-- ===== src/Logic/Online.antt =====
-- Connect and DisConnect keep the counts of the groups right.
use axis_chat_server.Prelude.{
  ℕ, ◌≡◌, refl, ◌≢◌, Bool, Bool-cases, true, false, inl, inr, none, some, get_or, List, [], ◌∷◌,
  Text, ◌=text◌, if◌then◌else◌, ap, sym, ◌∙◌, subst,
}
use axis_chat_server.Prelude.Decimal.{decimal}
use axis_chat_server.Prelude.Int.{ℤ, pos, negsuc}
use axis_chat_server.Common.Param.{op_friend_off_online_send}
use axis_chat_server.Common.Keys.{group_online_user, group_online_user_count, all_online_user}
use axis_chat_server.Common.Redis.{
  Client, Result, ok, err, Cluster, redis_get_string, redis_set_string, redis_hset,
  redis_is_not_exist_hset, redis_hincr_by, redis_hdel,
}
use axis_chat_server.Common.Redis.Views.{on_client-kept}
use axis_chat_server.Common.Redis.Effects.{Hashes, no_table}
use axis_chat_server.Common.Redis.Fields.{
  grown, shrunk, is_not_exist_hset-Reported, redis_hdel-Reported, redis_hincr_by-number,
}
use axis_chat_server.Logic.Data.{Stored, Db, World, LogicError, or_fail, on_cache, system, same}
use axis_chat_server.Logic.Presence.{
  enter_group, leave_group, count_up, count_down, publish_group, for_each, dis_connect,
  push_user_info, off_text, Step,
}
use axis_chat_server.Logic.Counting.{
  Presence, SameGroups-Presence, kept-Presence, moved-Presence, tables,
}
use axis_chat_server.Logic.Frames.{
  or_fail-ok, set-SameGroups, get-SameGroups, hset-SameGroups, push_user_info-SameGroups,
  publish_group-SameGroups,
}

module _ {R : Type 0} (api : Client R Stored) (hashes : Hashes R Stored api) where
  hincr_frame :
      (up : Bool) (f : Text) (c : Cluster R) (j : Text)
      → (group_online_user_count =text j) ≡ false
      → tables api hashes j
          (redis_hincr_by api group_online_user_count f (if up then pos 1 else negsuc 0) c).1
        ≡ tables api hashes j c
  unfolding redis_hincr_by
  hincr_frame up f c j apart =
      let x : ℤ = if up then pos 1 else negsuc 0 in
      on_client-kept (hashes.table j) no_table j group_online_user_count
        (api.hincr_by group_online_user_count f x) c
        (λ r. hashes.hincr_frame group_online_user_count f j x r apart)

  module _ {D : Type 0} (db : Db D) where
    counted-up :
        (val : ℕ) (has : Bool) (c : Cluster R) (w1 : World R D)
        → Presence api hashes c
        → ((j : Text)
            → (group_online_user val =text j) ≡ false
            → tables api hashes j w1.cache ≡ tables api hashes j c)
        → ((f : Text) → (tables api hashes (group_online_user val) w1.cache).field f ≢ some [])
        → (tables api hashes (group_online_user val) w1.cache).size
          ≡ grown (tables api hashes (group_online_user val) c).size has
        → (count_up api db has val w1).0 ≡ ok tt
        → Presence api hashes (count_up api db has val w1).1.cache
    counted-up val true c w1 p others named size e =
        kept-Presence api hashes val c w1.cache p others named size
    counted-up val false c w1 p others named size e =
        let counting =
          on_cache (redis_hincr_by api group_online_user_count (decimal val) (pos 1)) w1 in
        let (t, good, ran) = or_fail-ok system counting (λ t w'. (ok tt, w')) tt e in
        let c2 = (redis_hincr_by api group_online_user_count (decimal val) (pos 1) w1.cache).1 in
        subst (λ q. Presence api hashes q.1.cache) (sym ran)
          (moved-Presence api hashes val c w1.cache p others named true c2 size
            (redis_hincr_by-number api hashes group_online_user_count (decimal val) true w1.cache
              good)
            (hincr_frame true (decimal val) w1.cache))

    entered :
        (userid : ℕ) (server_id : Text) (val : ℕ) (w : World R D)
        → server_id ≢ []
        → Presence api hashes w.cache
        → (has : Bool)
        → (redis_is_not_exist_hset api (group_online_user val) (decimal userid) server_id w.cache).0
          ≡ ok has
        → let w1 : World R D = record w {
          cache =
              (redis_is_not_exist_hset api
                (group_online_user val)
                (decimal userid)
                server_id
                w.cache).1;
        } in
          (count_up api db has val w1).0 ≡ ok tt
          → Presence api hashes (count_up api db has val w1).1.cache
    entered userid server_id val w named p has good e =
        let w1 : World R D = record w {
          cache =
              (redis_is_not_exist_hset api (group_online_user val) (decimal userid) server_id
                w.cache).1;
        } in
        let r =
          is_not_exist_hset-Reported api hashes (group_online_user val) (decimal userid) server_id
            w.cache has (p.named val (decimal userid)) good in
        counted-up val has w.cache w1 p r.others
          (λ f blank. elim (Bool-cases (decimal userid =text f)) [
            | inl hit ↦
                let now : some server_id ≡ some [] = sym (r.fields f ∙ rw hit refl) ∙ blank in
                named (ap (get_or []) now)
            | inr miss ↦ p.named val f (sym (r.fields f ∙ rw miss refl) ∙ blank)
          ])
          r.size e

    -- On right counts, the round of Connect for one group, with a server id that is not empty,
    -- keeps the counts right when it returns without an error.
    pub enter_group-Presence :
        (userid : ℕ) (server_id : Text) (val : ℕ) (w : World R D)
        → server_id ≢ []
        → Presence api hashes w.cache
        → (enter_group api db userid server_id val w).0 ≡ ok tt
        → Presence api hashes (enter_group api db userid server_id val w).1.cache
    unfolding enter_group
    enter_group-Presence userid server_id val w named p e =
        let x =
          on_cache (redis_is_not_exist_hset api (group_online_user val) (decimal userid) server_id)
            w in
        let publish = λ (t : Unit {0}) (w2 : World R D). publish_group api db userid val w2 in
        let (has, good, ran) =
          or_fail-ok system x (λ has w1. or_fail same (count_up api db has val w1) publish) tt e in
        let (t, good2, ran2) =
          or_fail-ok same (count_up api db has val x.1) publish tt (sym (ap (λ q. q.0) ran) ∙ e) in
        let w2 = (count_up api db has val x.1).1 in
        let counted = entered userid server_id val w named p has good good2 in
        let after =
          SameGroups-Presence api hashes w2.cache (publish_group api db userid val w2).1.cache
            (publish_group-SameGroups api hashes db userid val w2) counted in
        subst (λ q. Presence api hashes q.1.cache) (sym (ran ∙ ran2)) after

    counted-down :
        (val : ℕ) (has : Bool) (c : Cluster R) (w1 : World R D)
        → Presence api hashes c
        → ((j : Text)
            → (group_online_user val =text j) ≡ false
            → tables api hashes j w1.cache ≡ tables api hashes j c)
        → ((f : Text) → (tables api hashes (group_online_user val) w1.cache).field f ≢ some [])
        → (tables api hashes (group_online_user val) w1.cache).size
          ≡ shrunk (tables api hashes (group_online_user val) c).size has
        → (count_down api db has val w1).0 ≡ ok tt
        → Presence api hashes (count_down api db has val w1).1.cache
    counted-down val false c w1 p others named size e =
        kept-Presence api hashes val c w1.cache p others named size
    counted-down val true c w1 p others named size e =
        let counting =
          on_cache (redis_hincr_by api group_online_user_count (decimal val) (negsuc 0)) w1 in
        let (t, good, ran) = or_fail-ok system counting (λ t w'. (ok tt, w')) tt e in
        let c2 = (redis_hincr_by api group_online_user_count (decimal val) (negsuc 0) w1.cache).1 in
        subst (λ q. Presence api hashes q.1.cache) (sym ran)
          (moved-Presence api hashes val c w1.cache p others named false c2 size
            (redis_hincr_by-number api hashes group_online_user_count (decimal val) false w1.cache
              good)
            (hincr_frame false (decimal val) w1.cache))

    left_ :
        (userid val : ℕ) (w : World R D)
        → Presence api hashes w.cache
        → (has : Bool)
        → (redis_hdel api (group_online_user val) (decimal userid) w.cache).0 ≡ ok has
        → let w1 : World R D = record w {
          cache = (redis_hdel api (group_online_user val) (decimal userid) w.cache).1;
        } in
          (count_down api db has val w1).0 ≡ ok tt
          → Presence api hashes (count_down api db has val w1).1.cache
    left_ userid val w p has good e =
        let w1 : World R D = record w {
          cache = (redis_hdel api (group_online_user val) (decimal userid) w.cache).1;
        } in
        let r =
          redis_hdel-Reported api hashes (group_online_user val) (decimal userid) w.cache has
            (p.named val (decimal userid)) good in
        counted-down val has w.cache w1 p r.others
          (λ f blank. elim (Bool-cases (decimal userid =text f)) [
            | inl hit ↦ let never : none ≡ some [] = sym (r.fields f ∙ rw hit refl) ∙ blank in cc
            | inr miss ↦ p.named val f (sym (r.fields f ∙ rw miss refl) ∙ blank)
          ])
          r.size e

    -- The same of the round of DisConnect for one group.
    pub leave_group-Presence :
        (userid val : ℕ) (w : World R D)
        → Presence api hashes w.cache
        → (leave_group api db userid val w).0 ≡ ok tt
        → Presence api hashes (leave_group api db userid val w).1.cache
    unfolding leave_group
    leave_group-Presence userid val w p e =
        let x = on_cache (redis_hdel api (group_online_user val) (decimal userid)) w in
        let publish = λ (t : Unit {0}) (w2 : World R D). publish_group api db userid val w2 in
        let (has, good, ran) =
          or_fail-ok system x (λ has w1. or_fail same (count_down api db has val w1) publish) tt
            e in
        let (t, good2, ran2) =
          or_fail-ok same (count_down api db has val x.1) publish tt
            (sym (ap (λ q. q.0) ran) ∙ e) in
        let w2 = (count_down api db has val x.1).1 in
        let after =
          SameGroups-Presence api hashes w2.cache (publish_group api db userid val w2).1.cache
            (publish_group-SameGroups api hashes db userid val w2)
            (left_ userid val w p has good good2) in
        subst (λ q. Presence api hashes q.1.cache) (sym (ran ∙ ran2)) after

    pub or_fail-Presence :
        {E A B : Type 0} (fail : E → LogicError) (x : Result E A × World R D)
        (next : A → World R D → Result LogicError B × World R D) (b : B)
        → ((a : A) → x.0 ≡ ok a → Presence api hashes x.1.cache)
        → ((a : A) (w : World R D)
            → Presence api hashes w.cache
            → (next a w).0 ≡ ok b
            → Presence api hashes (next a w).1.cache)
        → (or_fail fail x next).0 ≡ ok b
        → Presence api hashes (or_fail fail x next).1.cache
    or_fail-Presence fail (err r, w) next b first rest e = cc
    or_fail-Presence fail (ok a, w) next b first rest e = rest a w (first a refl) e

    pub for_each-Presence :
        (body : ℕ → Step api db Unit)
        → ((val : ℕ) (w : World R D)
            → Presence api hashes w.cache
            → (body val w).0 ≡ ok tt
            → Presence api hashes (body val w).1.cache)
        → (vals : List ℕ) (w : World R D) → Presence api hashes w.cache
        → (for_each api db body vals w).0 ≡ ok tt
        → Presence api hashes (for_each api db body vals w).1.cache
    unfolding for_each
    for_each-Presence body round [] w p e = p
    for_each-Presence body round (val ∷ vals) w p e =
        or_fail-Presence same (body val w) (λ t w'. for_each api db body vals w') tt
          (λ t good. round val w p good) (λ t w' p' e'. for_each-Presence body round vals w' p' e')
          e

    pub friends-Presence :
        (userid : ℕ) (username : Text) (op : ℕ) (vals : List ℕ) (w : World R D)
        → Presence api hashes w.cache
        → (for_each api db (λ val. push_user_info api db userid username val op) vals w).0 ≡ ok tt
        → Presence api hashes
            (for_each api db (λ val. push_user_info api db userid username val op) vals w).1.cache
    friends-Presence userid username op vals w p e =
        for_each-Presence (λ val. push_user_info api db userid username val op)
          (λ val w' p' e'.
            SameGroups-Presence api hashes w'.cache
              (push_user_info api db userid username val op w').1.cache
              (push_user_info-SameGroups api hashes db userid username val op w') p')
          vals w p e

    pub set-Presence :
        (key : Text) (v : Stored) (expire : ℕ) (c : Cluster R)
        → ((g : ℕ) → (key =text group_online_user g) ≡ false)
        → (key =text group_online_user_count) ≡ false
        → Presence api hashes c
        → Presence api hashes (redis_set_string api key v expire c).1
    set-Presence key v expire c g n p =
        SameGroups-Presence api hashes c (redis_set_string api key v expire c).1
          (set-SameGroups api hashes key v expire c g n) p

    pub hset-Presence :
        (f v : Text) (c : Cluster R)
        → Presence api hashes c
        → Presence api hashes (redis_hset api all_online_user f v c).1
    hset-Presence f v c p =
        SameGroups-Presence api hashes c (redis_hset api all_online_user f v c).1
          (hset-SameGroups api hashes f v c) p

    pub get-Presence :
        (key : Text) (c : Cluster R)
        → Presence api hashes c
        → Presence api hashes (redis_get_string api key c).1
    get-Presence key c p =
        SameGroups-Presence api hashes c (redis_get_string api key c).1
          (get-SameGroups api hashes key c) p

    -- When each group's count is the number of entries in its table of online users, and no entry is
    -- the empty text, both still hold after a DisConnect that returns without an error. It is assumed
    -- that redis answers every HGET and that reading changes nothing.
    pub dis_connect-Presence :
        (userid : ℕ) (w : World R D)
        → Presence api hashes w.cache
        → (dis_connect api db userid w).0 ≡ ok tt
        → Presence api hashes (dis_connect api db userid w).1.cache
    unfolding dis_connect
    dis_connect-Presence userid w p e =
        or_fail-Presence system
          (on_cache (redis_hset api all_online_user (decimal userid) off_text) w) _ tt
          (λ t good. hset-Presence (decimal userid) off_text w.cache p)
          (λ t w1 p1.
            or_fail-Presence same
              (for_each api db (leave_group api db userid) (db.query_user_all_group_id userid w.db)
                w1)
              _ tt
              (λ t good.
                for_each-Presence (leave_group api db userid)
                  (λ val w' p' e'. leave_group-Presence userid val w' p' e')
                  (db.query_user_all_group_id userid w.db) w1 p1 good)
              (λ t w2 p2.
                or_fail-Presence system
                  (for_each api db
                    (λ val. push_user_info api db userid [] val op_friend_off_online_send)
                    (db.query_user_all_friend_id userid w.db) w2)
                  (λ t w3. (ok tt, w3)) tt
                  (λ t good.
                    friends-Presence userid [] op_friend_off_online_send
                      (db.query_user_all_friend_id userid w.db) w2 p2 good)
                  (λ t w3 p3 e3. p3)))
          e
