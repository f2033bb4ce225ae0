-- ===== src/Common/Redis/Answering.antt =====
-- When every server is reachable and answers, the functions of common/redis.go return without an
-- error.
use axis_chat_server.Prelude.{
  ℕ, ◌≡◌, refl, Bool, Bool-cases, true, false, inl, inr, Option, Text, ◌=text◌, ap, sym, ◌∙◌, subst,
}
use axis_chat_server.Prelude.Int.{ℤ}
use axis_chat_server.Ring.{get}
use axis_chat_server.Common.Redis.{
  Client, Reply, value, Result, ok, err, RedisError, Cluster, get_redis_client_by_key, on_client,
  answered, strict, lenient, then_result, has_val, or_refused, hdel_next, redis_is_not_exist_hset,
  redis_hset, redis_hdel, redis_hincr_by, redis_hget, redis_hget_all, redis_lpush, redis_set_string,
  redis_get_string, redis_del_string,
}
use axis_chat_server.Common.Redis.Views.{find-cases, on_client-acts}

-- Every server replies to each command, with a value where the command always has one.
pub record Answers (R V : Type 0) (api : Client R V) : Type 0 where
  pub get_answers : (k : Text) (r : R) → (o : Option V) × (lenient (ok (api.get_ k r).0) ≡ ok o)
  pub del_answers : (k : Text) (r : R) → (o : Option Unit) × (lenient (ok (api.del_ k r).0) ≡ ok o)
  pub set_answers : (k : Text) (v : V) (x : ℕ) (r : R) → (api.set_ k v x r).0 ≡ value tt
  pub hset_answers : (k f v : Text) (r : R) → (api.hset k f v r).0 ≡ value tt
  pub hdel_answers : (k f : Text) (r : R) → (api.hdel k f r).0 ≡ value tt
  pub hincr_answers : (k f : Text) (x : ℤ) (r : R) → (n : ℤ) × ((api.hincr_by k f x r).0 ≡ value n)
  pub hget_all_answers : (k : Text) (r : R) → (l : _) × ((api.hget_all k r).0 ≡ value l)
  pub lpush_answers : (k : Text) (v : V) (r : R) → (api.lpush k v r).0 ≡ value tt

-- The ring gives a server for every key, and its client is in the map.
abbrev pub Reachable : {R : Type 0} → Cluster R → Type 0
Reachable c =
    (key : Text) → (address : Text) × (r : _) × (get_redis_client_by_key key c ≡ ok (address, r))

-- A function that returns without an error, with the servers reachable after it.
abbrev pub Returns : {R A : Type 0} → Result RedisError A × Cluster R → Type 0
Returns x = (a : _) × (x.0 ≡ ok a) × Reachable x.1

refused-ok : {E A : Type 0} {e : E} {a : A} → ◌≡◌ {A = Result E A} (err e) (ok a) → ⊥
refused-ok h = cc

module _ {R : Type 0} where
  answered-Reachable :
      {A : Type 0} (address : Text) (c : Cluster R) (a : Reply A × R)
      → Reachable c
      → Reachable (answered address c a).1
  answered-Reachable address c (reply, r') reach key =
      elim (find-cases (get key c.consistent_hash) c) [
        | inl (e, refused) ↦
            let (at, r, good) = reach key in absurd (refused-ok (sym refused ∙ good))
        | inr (other, r, here, f) ↦ elim (Bool-cases (address =text other)) [
          | inl same ↦ (other, r', rw (f.asked, f.named, same) refl)
          | inr apart ↦ (other, r, rw (f.asked, f.named, apart, f.known) refl)
        ]
      ]

  pub on_client-Reachable :
      {A : Type 0} (key : Text) (command : R → Reply A × R) (c : Cluster R)
      → Reachable c
      → Reachable (on_client key command c).1
  on_client-Reachable key command c reach = elim (on_client-acts key command c) [
    | inl (e, refused, same) ↦ subst (λ q. Reachable q.1) (sym same) reach
    | inr (address, r, here, acted, after) ↦
        subst (λ q. Reachable q.1) (sym acted) (answered-Reachable address c (command r) reach)
  ]

  -- the reply of a reachable server
  on_client-reply :
      {A : Type 0} (key : Text) (command : R → Reply A × R) (c : Cluster R)
      → Reachable c
      → (r : R) × ((on_client key command c).0 ≡ ok (command r).0)
  on_client-reply key command c reach = elim (on_client-acts key command c) [
    | inl (e, refused, same) ↦
        let (at, r, good) = reach key in absurd (refused-ok (sym refused ∙ good))
    | inr (address, r, here, acted, after) ↦ (r, ap (λ q. q.0) acted)
  ]

  strict-Returns :
      {A : Type 0} (key : Text) (command : R → Reply A × R) (c : Cluster R)
      → ((r : R) → (a : A) × ((command r).0 ≡ value a))
      → Reachable c
      → Returns (strict (on_client key command c).0, (on_client key command c).1)
  strict-Returns key command c good reach =
      let (r, said) = on_client-reply key command c reach in
      let (a, v) = good r in
      (a, ap strict (said ∙ ap ok v), on_client-Reachable key command c reach)

then-ok : {E A B : Type 0} (b : B) (x : Result E A) (a : A) → x ≡ ok a → then_result b x ≡ ok b
then-ok b x a e = rw e refl

module _ {R V : Type 0} (api : Client R V) (answers : Answers R V api) where
  pub set_string-Returns :
      (k : Text) (v : V) (x : ℕ) (c : Cluster R)
      → Reachable c
      → Returns (redis_set_string api k v x c)
  unfolding redis_set_string
  set_string-Returns k v x c reach =
      strict-Returns k (api.set_ k v x) c (λ r. (tt, answers.set_answers k v x r)) reach

  pub get_string-Returns :
      (k : Text) (c : Cluster R) → Reachable c → Returns (redis_get_string api k c)
  unfolding redis_get_string
  get_string-Returns k c reach =
      let (r, said) = on_client-reply k (api.get_ k) c reach in
      let (o, v) = answers.get_answers k r in
      (o, ap lenient said ∙ v, on_client-Reachable k (api.get_ k) c reach)

  pub del_string-Returns :
      (k : Text) (c : Cluster R) → Reachable c → Returns (redis_del_string api k c)
  unfolding redis_del_string
  del_string-Returns k c reach =
      let (r, said) = on_client-reply k (api.del_ k) c reach in
      let (o, v) = answers.del_answers k r in
      (o, ap lenient said ∙ v, on_client-Reachable k (api.del_ k) c reach)

  pub hset-Returns : (k f v : Text) (c : Cluster R) → Reachable c → Returns (redis_hset api k f v c)
  unfolding redis_hset
  hset-Returns k f v c reach =
      strict-Returns k (api.hset k f v) c (λ r. (tt, answers.hset_answers k f v r)) reach

  pub hget_all-Returns : (k : Text) (c : Cluster R) → Reachable c → Returns (redis_hget_all api k c)
  unfolding redis_hget_all
  hget_all-Returns k c reach =
      strict-Returns k (api.hget_all k) c (λ r. answers.hget_all_answers k r) reach

  pub lpush-Returns :
      (k : Text) (v : V) (c : Cluster R) → Reachable c → Returns (redis_lpush api k v c)
  unfolding redis_lpush
  lpush-Returns k v c reach =
      strict-Returns k (api.lpush k v) c (λ r. (tt, answers.lpush_answers k v r)) reach

  pub hincr_by-Returns :
      (k f : Text) (x : ℤ) (c : Cluster R) → Reachable c → Returns (redis_hincr_by api k f x c)
  unfolding redis_hincr_by
  hincr_by-Returns k f x c reach =
      let (n, good, after) =
        strict-Returns k (api.hincr_by k f x) c (λ r. answers.hincr_answers k f x r) reach in
      (tt, then-ok tt (strict (on_client k (api.hincr_by k f x) c).0) n good, after)

  pub hget-Reachable :
      (k f : Text) (c : Cluster R) → Reachable c → Reachable (redis_hget api k f c).1
  unfolding redis_hget
  hget-Reachable k f c reach = on_client-Reachable k (api.hget k f) c reach

  pub is_not_exist_hset-Returns :
      (k f v : Text) (c : Cluster R) → Reachable c → Returns (redis_is_not_exist_hset api k f v c)
  unfolding redis_is_not_exist_hset redis_hset
  is_not_exist_hset-Returns k f v c reach =
      let (address, r, here) = reach k in
      let (old, c1) = on_client k (api.hget k f) c in
      let (t, good, after) = hset-Returns k f v c1 (on_client-Reachable k (api.hget k f) c reach) in
      let next : Result RedisError Bool × Cluster R =
        (then_result (has_val old) (redis_hset api k f v c1).0, (redis_hset api k f v c1).1) in
      subst Returns (sym (ap (λ x. or_refused x c next) here))
        (has_val old, then-ok (has_val old) (redis_hset api k f v c1).0 t good, after)

  hdel_next-Returns :
      (old : Bool) (gone : Result RedisError (Reply Unit) × Cluster R) (c1 : Cluster R)
      → Returns (strict gone.0, gone.1)
      → Reachable c1
      → Returns (hdel_next old gone c1)
  hdel_next-Returns true (res, c2) c1 (t, good, after) reach =
      (true, then-ok true (strict res) t good, after)
  hdel_next-Returns false gone c1 good reach = (false, refl, reach)

  pub redis_hdel-Returns :
      (k f : Text) (c : Cluster R) → Reachable c → Returns (redis_hdel api k f c)
  unfolding redis_hdel
  redis_hdel-Returns k f c reach =
      let (address, r, here) = reach k in
      let (old, c1) = on_client k (api.hget k f) c in
      let reach1 = on_client-Reachable k (api.hget k f) c reach in
      let next = hdel_next (has_val old) (on_client k (api.hdel k f) c1) c1 in
      subst Returns (sym (ap (λ x. or_refused x c next) here)) (
        hdel_next-Returns (has_val old) (on_client k (api.hdel k f) c1) c1
          (strict-Returns k (api.hdel k f) c1 (λ r. (tt, answers.hdel_answers k f r)) reach1)
          reach1)
