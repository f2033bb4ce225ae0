-- ===== src/Connect/Pump/Saved.antt =====
-- What saving one letter box leaves (save_box).
use axis_chat_server.Prelude.{
  ℕ, ◌≡◌, refl, false, inl, inr, Option, none, some, List, map, Text, ◌=text◌, Bool, ap, sym, ◌∙◌,
}
use axis_chat_server.Prelude.TextMap.{lookup}
use axis_chat_server.Common.Keys.{persistent_lock}
use axis_chat_server.Common.Redis.{
  Client, Cluster, Reply, value, nil, failed, strict, ok, err, lenient, redis_del_string,
  redis_hget_all,
}
use axis_chat_server.Common.Redis.Views.{on_client-acts, on_client-kept, seen}
use axis_chat_server.Common.Redis.Effects.{Hashes, Table, no_table, table_at}
use axis_chat_server.Common.Redis.Answering.{
  Answers, Reachable, del_string-Returns, hget_all-Returns,
}
use axis_chat_server.Common.Lock.{Scripts, RedisLockObj, new_redis_locker, set_expire, release}
use axis_chat_server.Common.Lock.Freed.{Locks, holder, release-holder}
use axis_chat_server.Connect.Letters.{Codec, Pump, goes_on, lock_value}
use axis_chat_server.Connect.Letters.Alive.{release-Reachable}
use axis_chat_server.Connect.Letters.Boxes.{Apart, release-Returns, refused_ok}
use axis_chat_server.Connect.Pump.{Pumping, until_locked, saved_box, save_box}
use axis_chat_server.Db.{Gorm, save_msg_in_batches}

module _ {R V D : Type 0} (api : Client R V) (scripts : Scripts R) (hashes : Hashes R V api)
    (answers : Answers R V api) (locks : Locks R scripts) (codec : Codec V) (gorm : Gorm D) where
  -- What redis documents of HGETALL and DEL: the reply lists the fields of the table of the key, DEL
  -- removes it when it replies, and leaves the tables of other keys.
  pub record Emptying : Type 0 where
    pub listed :
        (k : Text) (r : R) (entries : List (Text × Text))
        → (api.hget_all k r).0 ≡ value entries
        → (f : Text) → lookup f entries ≡ (hashes.table k r).field f
    pub deleted :
        (k : Text) (r : R) (o : Option Unit)
        → lenient (ok (api.del_ k r).0) ≡ ok o
        → hashes.table k (api.del_ k r).1 ≡ no_table
    pub deleted_frame :
        (k j : Text) (r : R)
        → (k =text j) ≡ false
        → hashes.table j (api.del_ k r).1 ≡ hashes.table j r

  -- What saving a letter box leaves: the rows that it listed were given to the database, the box is empty
  -- and its lock free, the other boxes are as they were, and the servers are reachable.
  pub record Saved (box : Text) (entries : List (Text × Text)) (w w' : Pumping R D) : Type 0 where
    pub rows : (f : Text) → lookup f entries ≡ (table_at api hashes box w.cache).field f
    pub stored :
        w'.db
        ≡ save_msg_in_batches gorm (map (λ (e : Text × Text). codec.as_message e.1) entries) w.db
    pub emptied : table_at api hashes box w'.cache ≡ no_table
    pub unlocked : holder scripts locks (persistent_lock box) w'.cache ≡ none
    pub others :
        (k : Text)
        → (persistent_lock box =text k) ≡ false
        → (box =text k) ≡ false
        → table_at api hashes k w'.cache ≡ table_at api hashes k w.cache
    pub reach : Reachable w'.cache

  strict-value : {A : Type 0} (a : Reply A) (x : A) → strict (ok a) ≡ ok x → a ≡ value x
  strict-value (value y) x e = cc
  strict-value nil x e = cc
  strict-value failed x e = cc

  hget_all-listed :
      Emptying
      → (box : Text) (c : Cluster R) (entries : List (Text × Text))
      → (redis_hget_all api box c).0 ≡ ok entries
      → (f : Text) → lookup f entries ≡ (table_at api hashes box c).field f
  unfolding redis_hget_all
  hget_all-listed laws box c entries got f = elim (on_client-acts box (api.hget_all box) c) [
    | inl (x, refused, same) ↦
        let bad : err x ≡ ok entries = sym (ap (λ p. strict p.0) same) ∙ got in absurd cc
    | inr (address, r, here, acted, after) ↦
        let said : strict (ok (api.hget_all box r).0) ≡ ok entries =
          sym (ap (λ p. strict p.0) acted) ∙ got in
        laws.listed box r entries (strict-value (api.hget_all box r).0 entries said) f
        ∙ sym (ap (λ o. (seen (hashes.table box) no_table o).field f) here)
  ]

  hget_all-kept :
      (box k : Text) (c : Cluster R)
      → table_at api hashes k (redis_hget_all api box c).1 ≡ table_at api hashes k c
  unfolding redis_hget_all
  hget_all-kept box k c =
      on_client-kept (hashes.table k) no_table k box (api.hget_all box) c
        (λ r. ap (hashes.table k) (hashes.hget_all_same box r))

  del-kept :
      Emptying
      → (box k : Text) (c : Cluster R) → (box =text k) ≡ false
      → table_at api hashes k (redis_del_string api box c).1 ≡ table_at api hashes k c
  unfolding redis_del_string
  del-kept laws box k c apart =
      on_client-kept (hashes.table k) no_table k box (api.del_ box) c
        (λ r. laws.deleted_frame box k r apart)

  del-no_table :
      Emptying
      → (box : Text) (c : Cluster R) → Reachable c
      → table_at api hashes box (redis_del_string api box c).1 ≡ no_table
  unfolding redis_del_string
  del-no_table laws box c reach = elim (on_client-acts box (api.del_ box) c) [
    | inl (x, refused, same) ↦
        let (address, r, good) = reach box in
        absurd (refused_ok x (address, r) (sym refused ∙ good))
    | inr (address, r, here, acted, after) ↦
        let (o, said) = answers.del_answers box r in
        ap (λ p. table_at api hashes box p.1) acted
        ∙ ap (seen (hashes.table box) no_table) after
        ∙ laws.deleted box r o said
  ]

  release-table :
      Apart api scripts hashes answers locks codec
      → (lock : RedisLockObj) (k : Text) (c : Cluster R) → (lock.key =text k) ≡ false
      → table_at api hashes k (release scripts lock c).1 ≡ table_at api hashes k c
  unfolding release
  release-table laws lock k c apart =
      on_client-kept (hashes.table k) no_table k lock.key (scripts.del_command lock.key) c
        (λ r. laws.del_table lock.key k r apart)

  -- the tables of all keys but one
  abbrev pub SameBut : Text → Cluster R → Cluster R → Type 0
  SameBut key c c' =
      (k : Text) → (key =text k) ≡ false → table_at api hashes k c' ≡ table_at api hashes k c

  saved_box-Saved :
      Emptying
      → Apart api scripts hashes answers locks codec
      → (box : Text) (lock : RedisLockObj) (c : Cluster R) (w : Pumping R D)
      → lock.key ≡ persistent_lock box
      → (persistent_lock box =text box) ≡ false
      → Reachable c
      → SameBut (persistent_lock box) w.cache c
      → (entries : List (Text × Text)) × ((saved_box api scripts codec gorm box lock
            (redis_hget_all api box c)
            (record w { cache = c })).0
          ≡ goes_on)
        × Saved box entries w
            (saved_box api scripts codec gorm box lock
              (redis_hget_all api box c)
              (record w { cache = c })).1
  saved_box-Saved laws apart_laws box lock c w named apart reach before =
      let (entries, got, reach1) = hget_all-Returns api answers box c reach in
      let c1 = (redis_hget_all api box c).1 in
      let c2 = (redis_del_string api box c1).1 in
      let (o, done, reach2) = del_string-Returns api answers box c1 reach1 in
      let (freed_, good) = release-Returns api scripts hashes answers locks codec lock c2 reach2 in
      let other = λ (k : Text) (a : (persistent_lock box =text k) ≡ false).
        ap (λ (key : Text). key =text k) named ∙ a in
      (
        entries,
        ap (λ x. (saved_box api scripts codec gorm box lock (x, c1) (record w { cache = c })).0)
            got,
        rw got record {
          rows = λ f.
              hget_all-listed laws box c entries got f
              ∙ ap (λ (t : Table). t.field f) (before box apart);
          stored = refl;
          emptied =
              release-table apart_laws lock box c2 (other box apart)
              ∙ del-no_table laws box c1 reach1;
          unlocked =
              ap (λ k. holder scripts locks k (release scripts lock c2).1) (sym named)
              ∙ (release-holder scripts locks lock c2 freed_ good).1;
          others = λ k a b.
              release-table apart_laws lock k c2 (other k a)
              ∙ del-kept laws box k c1 b
              ∙ hget_all-kept box k c
              ∙ before k a;
          reach = release-Reachable scripts lock c2 reach2;
        },
      )

  -- the lock object of a letter box
  abbrev pub lock_of : Text → RedisLockObj
  lock_of box =
      set_expire 60 (record { timeout = 0; key = persistent_lock box; value_ = lock_value })

  pub save_with-Saved :
      Emptying
      → Apart api scripts hashes answers locks codec
      → (lock : Bool) (attempts : ℕ) (box : Text) (refused : Pump) (w : Pumping R D) (c : Cluster R)
      → (persistent_lock box =text box) ≡ false
      → Reachable w.cache
      → until_locked api scripts codec gorm lock attempts (lock_of box) w.cache ≡ some c
      → Reachable c
      → SameBut (persistent_lock box) w.cache c
      → (entries : List (Text × Text)) × ((save_box api scripts codec gorm lock attempts box refused
            w).0
          ≡ goes_on)
        × Saved box entries w (save_box api scripts codec gorm lock attempts box refused w).1
  unfolding save_box new_redis_locker set_expire
  save_with-Saved laws apart_laws lock attempts box refused w c apart reach took reach1 before =
      let (address, r, good) = reach (persistent_lock box) in
      rw (good, took)
        (saved_box-Saved laws apart_laws box (lock_of box) c w refl apart reach1 before)
