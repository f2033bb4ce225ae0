-- ===== src/Connect/Pump/Unlocked.antt =====
-- Saving the letter boxes of a connection: the user's under its lock, the groups' without.
use axis_chat_server.Prelude.{
  ℕ, suc, ◌+◌, ◌*◌, ◌≡◌, refl, Bool-cases, true, false, inl, inr, none, List, [], ◌∷◌, Text,
  ◌=text◌, eq_of_=text, sym, subst, ◌∙◌,
}
use axis_chat_server.Common.Keys.{user_letter_box, group_letter_box, persistent_lock}
use axis_chat_server.Common.Redis.{Client}
use axis_chat_server.Common.Redis.Views.{on_client-kept}
use axis_chat_server.Common.Redis.Effects.{Hashes, no_table, table_at}
use axis_chat_server.Common.Redis.Answering.{Answers, Reachable, on_client-Reachable}
use axis_chat_server.Common.Lock.{Scripts, set_expire, acquire, tolerance, millis_per_second}
use axis_chat_server.Common.Lock.Freed.{Locks, holder}
use axis_chat_server.Connect.Letters.{
  Codec, Pump, goes_on, returned, waiting, crashed, and_then, acquire_until,
}
use axis_chat_server.Connect.Letters.Boxes.{Apart, acquire-taken}
use axis_chat_server.Connect.Pump.{Pumping, Owner, save_box, save_groups, save_chat_data_to_db}
use axis_chat_server.Connect.Pump.Saved.{Emptying, Saved, lock_of, save_with-Saved}
use axis_chat_server.Db.{Gorm}

pub and_then-goes_on :
    {W : Type 0} (p : Pump × W) (next : W → Pump × W) → p.0 ≡ goes_on → and_then p next ≡ next p.1
and_then-goes_on (goes_on, w) next e = refl
and_then-goes_on (returned, w) next e = absurd cc
and_then-goes_on (waiting, w) next e = absurd cc
and_then-goes_on (crashed, w) next e = absurd cc

module _ {R V D : Type 0} (api : Client R V) (scripts : Scripts R) (hashes : Hashes R V api)
    (answers : Answers R V api) (locks : Locks R scripts) (codec : Codec V) (gorm : Gorm D) where
  abbrev EmptyAt : Text → Pumping R D → Type 0
  EmptyAt k w = table_at api hashes k w.cache ≡ no_table

  -- the letter boxes of all of the groups are empty
  abbrev pub AllEmpty : List ℕ → Pumping R D → Type 0
  AllEmpty [] w = Unit
  AllEmpty (id ∷ group_ids) w = EmptyAt (group_letter_box id) w × AllEmpty group_ids w

  -- a letter box that was empty is so after another is saved
  stays_empty :
      (box k : Text) (entries : List (Text × Text)) (w w' : Pumping R D)
      → (persistent_lock box =text k) ≡ false
      → Saved api scripts hashes answers locks codec gorm box entries w w'
      → EmptyAt k w
      → EmptyAt k w'
  stays_empty box k entries w w' apart s was = elim (Bool-cases (box =text k)) [
    | inl same ↦ subst (λ b. EmptyAt b w') (eq_of_=text box k same) s.emptied
    | inr other ↦ s.others k apart other ∙ was
  ]

  module _ (laws : Emptying api scripts hashes answers locks codec gorm)
      (apart_laws : Apart api scripts hashes answers locks codec) where
    -- a group's letter box, saved without an attempt to lock it
    pub save_group-Saved :
        (attempts id : ℕ) (w : Pumping R D)
        → Reachable w.cache
        → (entries : List (Text × Text)) × ((save_box api scripts codec gorm true attempts
              (group_letter_box id)
              crashed
              w).0
            ≡ goes_on)
          × Saved api scripts hashes answers locks codec gorm
              (group_letter_box id)
              entries
              w
              (save_box api scripts codec gorm true attempts (group_letter_box id) crashed w).1
    save_group-Saved attempts id w reach =
        save_with-Saved api scripts hashes answers locks codec gorm laws apart_laws true attempts
          (group_letter_box id) crashed w w.cache refl reach refl reach (λ k a. refl)

    save_groups-EmptyAt :
        (attempts : ℕ) (group_ids : List ℕ) (k : Text) (w : Pumping R D)
        → Reachable w.cache
        → ((id : ℕ) → (persistent_lock (group_letter_box id) =text k) ≡ false)
        → EmptyAt k w
        → EmptyAt k (save_groups api scripts codec gorm true attempts group_ids w).1
    unfolding save_groups
    save_groups-EmptyAt attempts [] k w reach apart was = was
    save_groups-EmptyAt attempts (id ∷ group_ids) k w reach apart was =
        let (entries, on, s) = save_group-Saved attempts id w reach in
        let w1 =
          (save_box api scripts codec gorm true attempts (group_letter_box id) crashed w).1 in
        rw (save_groups, on)
          (save_groups-EmptyAt attempts group_ids k w1 s.reach apart
            (stays_empty (group_letter_box id) k entries w w1 (apart id) s was))

    save_groups-AllEmpty :
        (attempts : ℕ) (group_ids : List ℕ) (w : Pumping R D)
        → Reachable w.cache
        → ((save_groups api scripts codec gorm true attempts group_ids w).0 ≡ goes_on)
          × AllEmpty group_ids (save_groups api scripts codec gorm true attempts group_ids w).1
    unfolding save_groups
    save_groups-AllEmpty attempts [] w reach = (refl, tt)
    save_groups-AllEmpty attempts (id ∷ group_ids) w reach =
        let (entries, on, s) = save_group-Saved attempts id w reach in
        let w1 =
          (save_box api scripts codec gorm true attempts (group_letter_box id) crashed w).1 in
        let (goes, all) = save_groups-AllEmpty attempts group_ids w1 s.reach in
        rw (save_groups, on)
          (
            goes,
            (
              save_groups-EmptyAt attempts group_ids (group_letter_box id) w1 s.reach (λ i. refl)
                  s.emptied,
              all,
            ),
          )

    -- The user's letter box is saved, when its lock is free and the servers are reachable and answer: the
    -- first attempt to lock is enough, the rows that were in the box are given to the database, the box is
    -- empty, its lock is free again, and the tables of the other keys are as they were.
    pub save_own-Saved :
        (attempts userid : ℕ) (w : Pumping R D)
        → Reachable w.cache
        → holder scripts locks (persistent_lock (user_letter_box userid)) w.cache ≡ none
        → (entries : List (Text × Text)) × ((save_box api scripts codec gorm false
              (suc attempts)
              (user_letter_box userid)
              returned
              w).0
            ≡ goes_on)
          × Saved api scripts hashes answers locks codec gorm
              (user_letter_box userid)
              entries
              w
              (save_box api scripts codec gorm false
                (suc attempts)
                (user_letter_box userid)
                returned
                w).1
    unfolding acquire acquire_until set_expire
    save_own-Saved attempts userid w reach free =
        let box = user_letter_box userid in
        let lock = lock_of api scripts hashes answers locks codec gorm box in
        let px = lock.timeout * millis_per_second + tolerance in
        let took = acquire-taken api scripts hashes answers locks codec lock w.cache reach free in
        save_with-Saved api scripts hashes answers locks codec gorm laws apart_laws false
          (suc attempts) box returned w (acquire scripts lock w.cache).1 refl reach
          (rw (acquire_until, took) refl)
          (on_client-Reachable lock.key (scripts.lock_command lock.key lock.value_ px) w.cache
            reach)
          (λ k a.
            on_client-kept (hashes.table k) no_table k lock.key
              (scripts.lock_command lock.key lock.value_ px) w.cache
              (λ r. apart_laws.lock_table lock.key lock.value_ k px r a))

    -- saveChatDataToDb, when the lock of the user's letter box is free and the servers are reachable and
    -- answer, with at least one attempt for each lock: it goes on to its end, and then the letter box of the
    -- user and those of all the groups of the connection are empty, whoever held the groups' locks.
    pub save_chat_data_to_db-AllEmpty :
        (attempts : ℕ) (ch : Owner) (w : Pumping R D)
        → Reachable w.cache
        → holder scripts locks (persistent_lock (user_letter_box ch.userid)) w.cache ≡ none
        → ((save_chat_data_to_db api scripts codec gorm (suc attempts) ch w).0 ≡ goes_on)
          × EmptyAt
              (user_letter_box ch.userid)
              (save_chat_data_to_db api scripts codec gorm (suc attempts) ch w).1
          × AllEmpty ch.group_ids
              (save_chat_data_to_db api scripts codec gorm (suc attempts) ch w).1
    unfolding save_chat_data_to_db
    save_chat_data_to_db-AllEmpty attempts ch w reach free =
        let box = user_letter_box ch.userid in
        let (entries, on, s) = save_own-Saved attempts ch.userid w reach free in
        let w1 = (save_box api scripts codec gorm false (suc attempts) box returned w).1 in
        let (goes, all) = save_groups-AllEmpty (suc attempts) ch.group_ids w1 s.reach in
        let empty =
          save_groups-EmptyAt (suc attempts) ch.group_ids box w1 s.reach (λ i. refl) s.emptied in
        subst (λ p. (p.0 ≡ goes_on) × EmptyAt box p.1 × AllEmpty ch.group_ids p.1)
          (sym (
            and_then-goes_on (save_box api scripts codec gorm false (suc attempts) box returned w)
              (save_groups api scripts codec gorm true (suc attempts) ch.group_ids) on))
          (goes, empty, all)
