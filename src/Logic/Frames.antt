-- ===== src/Logic/Frames.antt =====
-- The steps of logic/ that leave the tables of the groups as they are, and steps in a row.
use axis_chat_server.Prelude.Atoi.{atoi}
use axis_chat_server.Prelude.{
  ℕ, ◌≡◌, refl, Bool, Bool-cases, true, false, inl, inr, map, Text, ◌=text◌, ◌==◌, if◌then◌else◌,
  ap, ◌∙◌,
}
use axis_chat_server.Prelude.Decimal.{decimal}
use axis_chat_server.Common.Param.{
  op_group_info_send, op_friend_online_send, op_friend_off_online_send,
}
use axis_chat_server.Common.Keys.{
  group_online_user, group_online_user_count, status_msg_queue, all_online_user,
}
use axis_chat_server.Common.Redis.{
  Client, Result, ok, err, Cluster, redis_lpush, redis_hget, redis_hget_all, redis_set_string,
  redis_get_string, redis_hset,
}
use axis_chat_server.Common.Redis.Views.{on_client-kept}
use axis_chat_server.Common.Redis.Effects.{Hashes, no_table, hget-kept}
use axis_chat_server.Logic.Data.{
  Stored, Db, World, LogicError, or_fail, on_cache, StatusMsg, friend_online_msg,
  friend_offline_msg, group_info_msg, no_msg, status_json, system,
}
use axis_chat_server.Logic.Presence.{
  push_user_info, push_group_info, publish_group, enqueue, count_of,
}
use axis_chat_server.Logic.Counting.{SameGroups}

-- What a step that returned without an error did.
pub or_fail-ok :
    {W E A B : Type 0} (fail : E → LogicError) (x : Result E A × W)
    (next : A → W → Result LogicError B × W) (b : B)
    → (or_fail fail x next).0 ≡ ok b
    → (a : A) × (x.0 ≡ ok a) × (or_fail fail x next ≡ next a x.1)
or_fail-ok fail (ok a, w) next b e = (a, refl, refl)
or_fail-ok fail (err r, w) next b e = cc

-- a test that returns an error, passed
pub guard-ok :
    {W A : Type 0} (b : Bool) (r : LogicError) (w : W) (next : Result LogicError A × W) (a : A)
    → (if b then (err r, w) else next).0 ≡ ok a
    → (b ≡ false) × ((if b then (err r, w) else next) ≡ next)
guard-ok true r w next a e = cc
guard-ok false r w next a e = (refl, refl)

pub require-ok :
    {W A : Type 0} (b : Bool) (r : LogicError) (w : W) (next : Result LogicError A × W) (a : A)
    → (if b then next else (err r, w)).0 ≡ ok a
    → (b ≡ true) × ((if b then next else (err r, w)) ≡ next)
require-ok true r w next a e = (refl, refl)
require-ok false r w next a e = cc

module _ {R : Type 0} (api : Client R Stored) (hashes : Hashes R Stored api) where
  pub SameGroups-refl : (c : Cluster R) → SameGroups api hashes c c
  SameGroups-refl c = record { groups = λ g. refl; counts = refl }

  pub SameGroups-trans :
      (a b c : Cluster R)
      → SameGroups api hashes a b
      → SameGroups api hashes b c
      → SameGroups api hashes a c
  SameGroups-trans a b c x y = record {
    groups = λ g. y.groups g ∙ x.groups g;
    counts = y.counts ∙ x.counts;
  }

  pub lpush-SameGroups :
      (v : Stored) (c : Cluster R)
      → SameGroups api hashes c (redis_lpush api status_msg_queue v c).1
  unfolding redis_lpush
  lpush-SameGroups v c =
      let kept = λ (j : Text) (apart : (status_msg_queue =text j) ≡ false).
        on_client-kept (hashes.table j) no_table j status_msg_queue (api.lpush status_msg_queue v) c
          (λ r. hashes.lpush_frame status_msg_queue j v r apart) in
      record {
        groups = λ g. kept (group_online_user g) refl;
        counts = kept group_online_user_count refl;
      }

  pub hget-SameGroups :
      (key f : Text) (c : Cluster R) → SameGroups api hashes c (redis_hget api key f c).1
  unfolding redis_hget
  hget-SameGroups key f c = record {
    groups = λ g.
        hget-kept api hashes (hashes.table (group_online_user g)) no_table (group_online_user g) key
          f c;
    counts =
        hget-kept api hashes (hashes.table group_online_user_count) no_table group_online_user_count
          key f c;
  }

  pub hget_all-SameGroups :
      (key : Text) (c : Cluster R) → SameGroups api hashes c (redis_hget_all api key c).1
  unfolding redis_hget_all
  hget_all-SameGroups key c =
      let kept = λ (j : Text).
        on_client-kept (hashes.table j) no_table j key (api.hget_all key) c
          (λ r. ap (hashes.table j) (hashes.hget_all_same key r)) in
      record { groups = λ g. kept (group_online_user g); counts = kept group_online_user_count }

  pub get-SameGroups :
      (key : Text) (c : Cluster R) → SameGroups api hashes c (redis_get_string api key c).1
  unfolding redis_get_string
  get-SameGroups key c =
      let kept = λ (j : Text).
        on_client-kept (hashes.table j) no_table j key (api.get_ key) c
          (λ r. ap (hashes.table j) (hashes.get_same key r)) in
      record { groups = λ g. kept (group_online_user g); counts = kept group_online_user_count }

  -- a write of another key
  pub set-SameGroups :
      (key : Text) (v : Stored) (expire : ℕ) (c : Cluster R)
      → ((g : ℕ) → (key =text group_online_user g) ≡ false)
      → (key =text group_online_user_count) ≡ false
      → SameGroups api hashes c (redis_set_string api key v expire c).1
  unfolding redis_set_string
  set-SameGroups key v expire c group_apart count_apart =
      let kept = λ (j : Text) (apart : (key =text j) ≡ false).
        on_client-kept (hashes.table j) no_table j key (api.set_ key v expire) c
          (λ r. hashes.set_frame key j v expire r apart) in
      record {
        groups = λ g. kept (group_online_user g) (group_apart g);
        counts = kept group_online_user_count count_apart;
      }

  pub hset-SameGroups :
      (f v : Text) (c : Cluster R)
      → SameGroups api hashes c (redis_hset api all_online_user f v c).1
  unfolding redis_hset
  hset-SameGroups f v c =
      let kept = λ (j : Text) (apart : (all_online_user =text j) ≡ false).
        on_client-kept (hashes.table j) no_table j all_online_user (api.hset all_online_user f v) c
          (λ r. hashes.hset_frame all_online_user f v j r apart) in
      record {
        groups = λ g. kept (group_online_user g) refl;
        counts = kept group_online_user_count refl;
      }

  or_fail-SameGroups :
      {D E A B : Type 0} (fail : E → LogicError) (c : Cluster R) (x : Result E A × World R D)
      (next : A → World R D → Result LogicError B × World R D)
      → SameGroups api hashes c x.1.cache
      → ((a : A) (w : World R D) → SameGroups api hashes w.cache (next a w).1.cache)
      → SameGroups api hashes c (or_fail fail x next).1.cache
  or_fail-SameGroups fail c (err e, w) next first rest = first
  or_fail-SameGroups fail c (ok a, w) next first rest =
      SameGroups-trans c w.cache (next a w).1.cache first (rest a w)

  module _ {D : Type 0} (db : Db D) where
    enqueue-SameGroups :
        (msg : StatusMsg) (w : World R D)
        → SameGroups api hashes w.cache (enqueue api db msg w).1.cache
    enqueue-SameGroups msg w =
        or_fail-SameGroups system w.cache
          (on_cache (redis_lpush api status_msg_queue (status_json msg)) w) (λ t w'. (ok tt, w'))
          (lpush-SameGroups (status_json msg) w.cache) (λ t w'. SameGroups-refl w'.cache)

    pub push_user_info-SameGroups :
        (userid : ℕ) (username : Text) (friend_id op : ℕ) (w : World R D)
        → SameGroups api hashes w.cache
            (push_user_info api db userid username friend_id op w).1.cache
    unfolding push_user_info
    push_user_info-SameGroups userid username friend_id op w =
        elim (Bool-cases (op == op_friend_online_send)) [
          | inl online ↦
              rw (push_user_info, online)
                (enqueue-SameGroups (friend_online_msg op userid username friend_id) w)
          | inr other ↦ elim (Bool-cases (op == op_friend_off_online_send)) [
            | inl offline ↦
                rw (push_user_info, other, offline)
                  (enqueue-SameGroups (friend_offline_msg op userid friend_id) w)
            | inr none_ ↦ rw (push_user_info, other, none_) (enqueue-SameGroups no_msg w)
          ]
        ]

    pub publish_group-SameGroups :
        (userid val : ℕ) (w : World R D)
        → SameGroups api hashes w.cache (publish_group api db userid val w).1.cache
    unfolding publish_group push_group_info
    publish_group-SameGroups userid val w =
        let read = on_cache (redis_hget api group_online_user_count (decimal val)) w in
        let all = on_cache (redis_hget_all api (group_online_user val)) read.1 in
        or_fail-SameGroups system w.cache all
          (λ user_map w2.
            or_fail system
              (push_group_info api db userid val (count_of read.0)
                (db.query_group_all_user val w2.db) (map (λ e. atoi e.0) user_map) w2)
              (λ t w3. (ok tt, w3)))
          (SameGroups-trans w.cache read.1.cache all.1.cache
            (hget-SameGroups group_online_user_count (decimal val) w.cache)
            (hget_all-SameGroups (group_online_user val) read.1.cache))
          (λ user_map w2.
            or_fail-SameGroups system w2.cache
              (push_group_info api db userid val (count_of read.0)
                (db.query_group_all_user val w2.db) (map (λ e. atoi e.0) user_map) w2)
              (λ t w3. (ok tt, w3))
              (enqueue-SameGroups
                (group_info_msg op_group_info_send val (count_of read.0)
                  (db.query_group_all_user val w2.db) (map (λ e. atoi e.0) user_map))
                w2)
              (λ t w3. SameGroups-refl w3.cache))
