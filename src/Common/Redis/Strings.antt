-- ===== src/Common/Redis/Strings.antt =====
-- What GET, SET and DEL are documented to do to a server, and the same of the functions that send
-- them when they return without an error.
use axis_chat_server.Prelude.{
  ℕ, ◌≡◌, ◌≢◌, false, inl, inr, Option, none, some, Text, ◌=text◌, ap, sym, ◌∙◌,
}
use axis_chat_server.Common.Redis.{
  Client, Reply, value, nil, failed, ok, err, Cluster, lenient, redis_set_string, redis_get_string,
  redis_del_string,
}
use axis_chat_server.Common.Redis.Views.{view_at, on_client-acts, on_client-kept, on_client-ok}

abbrev pub string_reply : {V : Type 0} → Option V → Reply V
string_reply none = nil
string_reply (some v) = value v

-- The string of a key. A key without one answers `redis.Nil` to GET.
pub record Strings (R V : Type 0) (api : Client R V) : Type 0 where
  pub string : Text → R → Option V
  pub get_value : (k : Text) (r : R) → api.get_ k r ≡ (string_reply (string k r), r)
  pub set_value :
      (k : Text) (v : V) (x : ℕ) (r : R)
      → (api.set_ k v x r).0 ≡ value tt
      → string k (api.set_ k v x r).1 ≡ some v
  pub set_frame :
      (k j : Text) (v : V) (x : ℕ) (r : R)
      → (k =text j) ≡ false
      → string j (api.set_ k v x r).1 ≡ string j r
  pub del_value : (k : Text) (r : R) → (api.del_ k r).0 ≢ failed → string k (api.del_ k r).1 ≡ none
  pub del_frame :
      (k j : Text) (r : R) → (k =text j) ≡ false → string j (api.del_ k r).1 ≡ string j r

module _ {R V : Type 0} (api : Client R V) (strings : Strings R V api) where
  abbrev pub string_at : Text → Cluster R → Option V
  string_at key c = view_at (strings.string key) none key c

  -- The string of `key` is now `v`, and those of the other keys stay.
  pub record Stores (key : Text) (v : Option V) (c c' : Cluster R) : Type 0 where
    pub here : string_at key c' ≡ v
    pub others : (j : Text) → (key =text j) ≡ false → string_at j c' ≡ string_at j c

  lenient-string : (o o' : Option V) → lenient (ok (string_reply o)) ≡ ok o' → o ≡ o'
  lenient-string none o' e = cc
  lenient-string (some v) o' e = cc

  pub get-string :
      (key : Text) (c : Cluster R) (o : Option V)
      → (redis_get_string api key c).0 ≡ ok o
      → (string_at key c ≡ o)
        × ((j : Text) → string_at j (redis_get_string api key c).1 ≡ string_at j c)
  unfolding redis_get_string
  get-string key c o e = (
    elim (on_client-acts key (api.get_ key) c) [
      | inl (x, refused, same) ↦
          let bad : err x ≡ ok o = sym (ap (λ p. lenient p.0) same) ∙ e in absurd cc
      | inr (address, r, here, acted, after) ↦ rw here (
          lenient-string (strings.string key r) o (
            sym (ap (λ p. lenient p.0) acted ∙ ap (λ p. lenient (ok p.0)) (strings.get_value key r))
            ∙ e))
    ],
    λ j.
        on_client-kept (strings.string j) none j key (api.get_ key) c
          (λ r. ap (λ p. strings.string j p.1) (strings.get_value key r)),
  )

  pub set-Stores :
      (key : Text) (v : V) (expire : ℕ) (c : Cluster R)
      → (redis_set_string api key v expire c).0 ≡ ok tt
      → Stores key (some v) c (redis_set_string api key v expire c).1
  unfolding redis_set_string
  set-Stores key v expire c e =
      let (address, r, said, found, after) = on_client-ok key (api.set_ key v expire) c tt e in
      record {
        here = rw after (strings.set_value key v expire r said);
        others = λ j apart.
            on_client-kept (strings.string j) none j key (api.set_ key v expire) c
              (λ r'. strings.set_frame key j v expire r' apart);
      }

  not-failed :
      {A : Type 0} (reply : Reply A) (a : Option A) → lenient (ok reply) ≡ ok a → reply ≢ failed
  not-failed (value b) a e h = cc
  not-failed nil a e h = cc
  not-failed failed a e h = cc

  pub del-Stores :
      (key : Text) (c : Cluster R) (a : Option Unit)
      → (redis_del_string api key c).0 ≡ ok a
      → Stores key none c (redis_del_string api key c).1
  unfolding redis_del_string
  del-Stores key c a e = record {
    here = elim (on_client-acts key (api.del_ key) c) [
      | inl (x, refused, same) ↦
          let bad : err x ≡ ok a = sym (ap (λ p. lenient p.0) same) ∙ e in absurd cc
      | inr (address, r, here, acted, after) ↦
          rw (acted, after)
            (strings.del_value key r
              (not-failed (api.del_ key r).0 a (sym (ap (λ p. lenient p.0) acted) ∙ e)))
    ];
    others = λ j apart.
        on_client-kept (strings.string j) none j key (api.del_ key) c
          (λ r. strings.del_frame key j r apart);
  }
