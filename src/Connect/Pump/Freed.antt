-- ===== src/Connect/Pump/Freed.antt =====
-- What saving the letter boxes of a connection does to the locks of its groups.
use axis_chat_server.Prelude.{
  ℕ, suc, ◌≡◌, refl, Bool-cases, true, false, inl, inr, none, List, [], ◌∷◌, Text, ◌=text◌,
  eq_of_=text, ap, sym, subst, ◌∙◌,
}
use axis_chat_server.Common.Keys.{user_letter_box, group_letter_box, persistent_lock}
use axis_chat_server.Common.Redis.{Client, Cluster, redis_del_string, redis_hget_all}
use axis_chat_server.Common.Redis.Views.{on_client-kept}
use axis_chat_server.Common.Redis.Effects.{Hashes}
use axis_chat_server.Common.Redis.Answering.{Answers, Reachable, hget_all-Returns}
use axis_chat_server.Common.Lock.{Scripts, release, set_expire}
use axis_chat_server.Common.Lock.Freed.{Locks, holder}
use axis_chat_server.Connect.Letters.{Codec, Pump, goes_on, returned, crashed, lock_value}
use axis_chat_server.Connect.Letters.Alive.{new_redis_locker-ok}
use axis_chat_server.Connect.Letters.Boxes.{Apart}
use axis_chat_server.Connect.Pump.{
  Pumping, Owner, saved_box, save_with, save_box, save_groups, save_chat_data_to_db,
}
use axis_chat_server.Connect.Pump.Saved.{Emptying, lock_of}
use axis_chat_server.Connect.Pump.Unlocked.{save_group-Saved, save_own-Saved, and_then-goes_on}
use axis_chat_server.Db.{Gorm}

module _ {R V D : Type 0} (api : Client R V) (scripts : Scripts R) (hashes : Hashes R V api)
    (answers : Answers R V api) (locks : Locks R scripts) (codec : Codec V) (gorm : Gorm D) where
  -- What redis documents of the locks of other keys.
  pub record OtherLocks : Type 0 where
    pub del_frame :
        (k j : Text) (r : R) → (k =text j) ≡ false → locks.held j (api.del_ k r).1 ≡ locks.held j r
    pub unlock_frame :
        (k j : Text) (r : R)
        → (k =text j) ≡ false
        → locks.held j (scripts.del_command k r).1 ≡ locks.held j r

  abbrev FreeAt : Text → Pumping R D → Type 0
  FreeAt k w = holder scripts locks k w.cache ≡ none

  -- nobody holds the lock of a letter box of the groups
  abbrev pub AllFree : List ℕ → Pumping R D → Type 0
  AllFree [] w = Unit
  AllFree (id ∷ group_ids) w =
      FreeAt (persistent_lock (group_letter_box id)) w × AllFree group_ids w

  -- the caches after a letter box is saved without an attempt to lock
  abbrev cache_after : Text → Cluster R → Cluster R
  cache_after box c =
      (release scripts (lock_of api scripts hashes answers locks codec gorm box)
        (redis_del_string api box (redis_hget_all api box c).1).1).1

  save_box-cache :
      (attempts : ℕ) (box : Text) (w : Pumping R D)
      → Reachable w.cache
      → (save_box api scripts codec gorm true attempts box crashed w).1.cache
        ≡ cache_after box w.cache
  unfolding save_box
  save_box-cache attempts box w reach =
      let (entries, got, reach1) = hget_all-Returns api answers box w.cache reach in
      let c1 = (redis_hget_all api box w.cache).1 in
      let rl = lock_of api scripts hashes answers locks codec gorm box in
      ap (λ x. (save_with api scripts codec gorm true attempts box crashed x w).1.cache)
        (new_redis_locker-ok (persistent_lock box) lock_value w.cache reach)
      ∙ ap (λ x. (saved_box api scripts codec gorm box rl (x, c1) w).1.cache) got

  module _ (other : OtherLocks) (laws : Emptying api scripts hashes answers locks codec gorm)
      (apart_laws : Apart api scripts hashes answers locks codec) where
    cache_after-holder :
        (box k : Text) (c : Cluster R)
        → (persistent_lock box =text k) ≡ false
        → (box =text k) ≡ false
        → holder scripts locks k (cache_after box c) ≡ holder scripts locks k c
    unfolding release redis_del_string redis_hget_all set_expire
    cache_after-holder box k c apart apart' =
        let c1 = (redis_hget_all api box c).1 in
        let c2 = (redis_del_string api box c1).1 in
        on_client-kept (locks.held k) none k (persistent_lock box)
          (scripts.del_command (persistent_lock box)) c2
          (λ r. other.unlock_frame (persistent_lock box) k r apart)
        ∙ on_client-kept (locks.held k) none k box (api.del_ box) c1
            (λ r. other.del_frame box k r apart')
        ∙ on_client-kept (locks.held k) none k box (api.hget_all box) c
            (λ r. ap (locks.held k) (hashes.hget_all_same box r))

    -- A lock that is free is so after a group's letter box is saved.
    stays_free :
        (attempts id : ℕ) (k : Text) (w : Pumping R D)
        → Reachable w.cache
        → (group_letter_box id =text k) ≡ false
        → FreeAt k w
        → FreeAt k (save_box api scripts codec gorm true attempts (group_letter_box id) crashed w).1
    stays_free attempts id k w reach apart free =
        let box = group_letter_box id in
        elim (Bool-cases (persistent_lock box =text k)) [
          | inl same ↦
              let (entries, on, s) =
                save_group-Saved api scripts hashes answers locks codec gorm laws apart_laws
                  attempts id w reach in
              subst (λ j. FreeAt j (save_box api scripts codec gorm true attempts box crashed w).1)
                (eq_of_=text (persistent_lock box) k same) s.unlocked
          | inr apart' ↦
              ap (holder scripts locks k) (save_box-cache attempts box w reach)
              ∙ cache_after-holder box k w.cache apart' apart
              ∙ free
        ]

    save_groups-FreeAt :
        (attempts : ℕ) (group_ids : List ℕ) (k : Text) (w : Pumping R D)
        → Reachable w.cache
        → ((id : ℕ) → (group_letter_box id =text k) ≡ false)
        → FreeAt k w
        → FreeAt k (save_groups api scripts codec gorm true attempts group_ids w).1
    unfolding save_groups
    save_groups-FreeAt attempts [] k w reach apart free = free
    save_groups-FreeAt attempts (id ∷ group_ids) k w reach apart free =
        let (entries, on, s) =
          save_group-Saved api scripts hashes answers locks codec gorm laws apart_laws attempts id w
            reach in
        let w1 =
          (save_box api scripts codec gorm true attempts (group_letter_box id) crashed w).1 in
        rw (save_groups, on)
          (save_groups-FreeAt attempts group_ids k w1 s.reach apart
            (stays_free attempts id k w reach (apart id) free))

    save_groups-AllFree :
        (attempts : ℕ) (group_ids : List ℕ) (w : Pumping R D)
        → Reachable w.cache
        → ((save_groups api scripts codec gorm true attempts group_ids w).0 ≡ goes_on)
          × AllFree group_ids (save_groups api scripts codec gorm true attempts group_ids w).1
    unfolding save_groups
    save_groups-AllFree attempts [] w reach = (refl, tt)
    save_groups-AllFree attempts (id ∷ group_ids) w reach =
        let (entries, on, s) =
          save_group-Saved api scripts hashes answers locks codec gorm laws apart_laws attempts id w
            reach in
        let w1 =
          (save_box api scripts codec gorm true attempts (group_letter_box id) crashed w).1 in
        let (goes, all) = save_groups-AllFree attempts group_ids w1 s.reach in
        let lock = persistent_lock (group_letter_box id) in
        rw (save_groups, on)
          (
            goes,
            (save_groups-FreeAt attempts group_ids lock w1 s.reach (λ i. refl) s.unlocked, all),
          )

    -- saveChatDataToDb, when the lock of the user's letter box is free, the servers are reachable and
    -- answer, and there is at least one attempt for each lock: whoever held the locks of the letter boxes of
    -- the connection's groups, it does not wait for them, goes on to its end, and then nobody holds
    -- any of them. It is assumed that DEL leaves the locks of other keys.
    pub save_chat_data_to_db-AllFree :
        (attempts : ℕ) (ch : Owner) (w : Pumping R D)
        → Reachable w.cache
        → holder scripts locks (persistent_lock (user_letter_box ch.userid)) w.cache ≡ none
        → ((save_chat_data_to_db api scripts codec gorm (suc attempts) ch w).0 ≡ goes_on)
          × AllFree ch.group_ids (save_chat_data_to_db api scripts codec gorm (suc attempts) ch w).1
    unfolding save_chat_data_to_db
    save_chat_data_to_db-AllFree attempts ch w reach free =
        let box = user_letter_box ch.userid in
        let (entries, on, s) =
          save_own-Saved api scripts hashes answers locks codec gorm laws apart_laws attempts
            ch.userid w reach free in
        let w1 = (save_box api scripts codec gorm false (suc attempts) box returned w).1 in
        subst (λ (p : Pump × Pumping R D). (p.0 ≡ goes_on) × AllFree ch.group_ids p.1)
          (sym (
            and_then-goes_on (save_box api scripts codec gorm false (suc attempts) box returned w)
              (save_groups api scripts codec gorm true (suc attempts) ch.group_ids) on))
          (save_groups-AllFree (suc attempts) ch.group_ids w1 s.reach)
