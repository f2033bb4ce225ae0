-- ===== src/Task/Queue/Listened.antt =====
-- After an update the table has exactly the topics of the groups and users that are online.
use axis_chat_server.Prelude.{
  ◌+◌, ◌≡◌, refl, Bool, true, false, not, ◌||◌, ◌&&◌, Option, some, get_or, List, [], ◌++◌, Text,
  if◌then◌else◌, ap, sym, ◌∙◌, arith,
}
use axis_chat_server.Prelude.TextMap.{lookup, has_key, Unique}
use axis_chat_server.Task.{mem}
use axis_chat_server.Task.Once.{times}
use axis_chat_server.Task.Queue.{
  Listening, Update, see_groups, see_users, delete_all, update_online_obj,
}
use axis_chat_server.Task.Queue.Seen.{
  group_topics, user_topics, see_all, see_groups-eq, see_users-eq, see_all-append, see_all-Seen,
}
use axis_chat_server.Task.Queue.Triggered.{trigger_old-Triggered, has_key-delete_all}

-- What an update makes of the table, the announcements and the triggers, for the topics `wanted`.
pub record Refreshed (wanted : List Text) (s s' : Listening) : Type 0 where
  pub listened : (t : Text) → has_key t s'.online_topic ≡ mem t wanted
  pub announced :
      (t : Text)
      → times t s'.new_topic_target
        ≡ times t s.new_topic_target
          + (if mem t wanted && not (has_key t s.online_topic) then 1 else 0)
  pub triggered :
      (t : Text)
      → lookup t s'.pre_off_trigger ≡ (
          if has_key t s.online_topic && not (mem t wanted)
          then some true
          else lookup t s.pre_off_trigger)

-- The topics that an update wants.
abbrev pub wanted_of : Option (List (Text × Text)) → Option (List (Text × Text)) → List Text
wanted_of group_map user_map =
    group_topics (get_or [] group_map) ++ user_topics (get_or [] user_map)

gone_only :
    (wanted known : Bool) → ((wanted || known) && not (wanted || false)) ≡ (known && not wanted)
gone_only true true = refl
gone_only true false = refl
gone_only false true = refl
gone_only false false = refl

kept_only :
    (wanted known : Bool)
    → ((wanted || known) && not ((wanted || known) && not (wanted || false))) ≡ wanted
kept_only true known = refl
kept_only false true = refl
kept_only false false = refl

-- When each listened topic has a trigger in which no value waits, an update does not block. After it the
-- table has exactly the topics of the groups with a count other than 0 and of the users who are "on";
-- each of those that was not listened to is announced once, and no other topic; and exactly the topics
-- that leave the table have a value in their trigger, the other triggers are as before.
pub update_online_obj-Refreshed :
    (group_map user_map : Option (List (Text × Text))) (s : Listening)
    → Unique s.online_topic
    → ((t : Text) → has_key t s.online_topic ≡ true → lookup t s.pre_off_trigger ≡ some false)
    → (s' : Listening) × (update_online_obj group_map user_map s ≡ some s')
      × Refreshed (wanted_of group_map user_map) s s'
unfolding update_online_obj
update_online_obj-Refreshed group_map user_map s u ready =
    let wanted = wanted_of group_map user_map in
    let start : Update = record { new_topic_map = []; listening = s } in
    let seen = see_all wanted start in
    let all = see_all-Seen wanted start in
    let same : see_users (get_or [] user_map) (see_groups (get_or [] group_map) start) ≡ seen =
      see_users-eq (get_or [] user_map) (see_groups (get_or [] group_map) start)
      ∙ ap (see_all (user_topics (get_or [] user_map))) (see_groups-eq (get_or [] group_map) start)
      ∙ sym (
          see_all-append (group_topics (get_or [] group_map)) (user_topics (get_or [] user_map))
            start) in
    let listed : (t : Text) → has_key t seen.new_topic_map ≡ (mem t wanted || false) = all.listed in
    let (s', old, ran, r) =
      trigger_old-Triggered seen.listening.online_topic seen.new_topic_map seen.listening
        (all.unique u)
        (λ t e out.
          ap (lookup t) all.triggers ∙ ready t (ground (arith, all.online t, listed t))) in
    (
      record s' { online_topic = delete_all old s'.online_topic },
      rw (update_online_obj, same, ran) refl,
      record {
        listened = λ t.
            has_key-delete_all t old s'.online_topic
            ∙ rw (r.online, r.going t, listed t, all.online t)
                (kept_only (mem t wanted) (has_key t s.online_topic));
        announced = λ t. ap (times t) r.target ∙ all.announced t;
        triggered = λ t.
            r.triggers t
            ∙ rw (listed t, all.online t, all.triggers)
                (ap (λ b. if b then some true else lookup t s.pre_off_trigger)
                  (gone_only (mem t wanted) (has_key t s.online_topic)));
      },
    )
