-- ===== src/Task/Queue/Seen.antt =====
-- What the loops over the groups and the users enter and announce.
use axis_chat_server.Prelude.{
  ℕ, ◌+◌, ◌≡◌, refl, Bool, Bool-cases, true, false, not, ◌||◌, ◌&&◌, inl, inr, List, [], ◌∷◌, ◌++◌,
  Text, ◌=text◌, eq_of_=text, if◌then◌else◌, ap, sym, ◌∙◌, arith,
}
use axis_chat_server.Prelude.Atoi.{atoi}
use axis_chat_server.Prelude.TextMap.{insert, has_key, lookup-insert, Unique, insert-Unique}
use axis_chat_server.Task.{mem}
use axis_chat_server.Task.Once.{times}
use axis_chat_server.Task.Queue.{
  Listening, Update, group_topic, friend_topic, is_zero, on, announce, see_topic, see_groups,
  see_users,
}

-- The topics of the groups with somebody online, and of the users who are online.
abbrev pub group_topics : List (Text × Text) → List Text
group_topics [] = []
group_topics ((k, v) ∷ m) =
    let rest = group_topics m in if is_zero (atoi v) then rest else group_topic (atoi k) ∷ rest

abbrev pub user_topics : List (Text × Text) → List Text
user_topics [] = []
user_topics ((k, v) ∷ m) =
    let rest = user_topics m in if v =text on then friend_topic (atoi k) ∷ rest else rest

-- entering topics one after the other
unfoldable pub see_all : List Text → Update → Update
see_all [] u = u
see_all (topic ∷ topics) u = see_all topics (see_topic topic u)

pub see_groups-eq :
    (m : List (Text × Text)) (u : Update) → see_groups m u ≡ see_all (group_topics m) u
unfolding see_groups see_all
see_groups-eq [] u = refl
see_groups-eq ((k, v) ∷ m) u = elim (Bool-cases (is_zero (atoi v))) [
  | inl empty ↦ rw empty (see_groups-eq m u)
  | inr some_one ↦ rw some_one (see_groups-eq m (see_topic (group_topic (atoi k)) u))
]

pub see_users-eq : (m : List (Text × Text)) (u : Update) → see_users m u ≡ see_all (user_topics m) u
unfolding see_users see_all
see_users-eq [] u = refl
see_users-eq ((k, v) ∷ m) u = elim (Bool-cases (v =text on)) [
  | inl up ↦ rw up (see_users-eq m (see_topic (friend_topic (atoi k)) u))
  | inr down ↦ rw down (see_users-eq m u)
]

pub see_all-append :
    (xs ys : List Text) (u : Update) → see_all (xs ++ ys) u ≡ see_all ys (see_all xs u)
unfolding see_all
see_all-append [] ys u = refl
see_all-append (x ∷ xs) ys u = see_all-append xs ys (see_topic x u)

has_key-insert :
    (k t : Text) (m : List (Text × Unit {0}))
    → has_key t (insert k tt m) ≡ (k =text t || has_key t m)
has_key-insert k t m = elim (Bool-cases (k =text t)) [
  | inl hit ↦ rw (lookup-insert k t tt m, hit) refl
  | inr miss ↦ rw (lookup-insert k t tt m, miss) refl
]

times-append : (t : Text) (xs ys : List Text) → times t (xs ++ ys) ≡ times t xs + times t ys
times-append t [] ys = omega arith
times-append t (x ∷ xs) ys = ground (arith, times-append t xs ys)

-- what entering one topic does to the table and to the announcements
announce-has_key :
    (k t : Text) (s : Listening)
    → has_key t (announce k s).online_topic ≡ (k =text t || has_key t s.online_topic)
announce-has_key k t s = elim (Bool-cases (has_key k s.online_topic)) [
  | inr fresh ↦ rw fresh (has_key-insert k t s.online_topic)
  | inl there ↦ elim (Bool-cases (k =text t)) [
    | inl hit ↦
        rw (there, hit) (ap (λ x. has_key x s.online_topic) (sym (eq_of_=text k t hit)) ∙ there)
    | inr miss ↦ rw (there, miss) refl
  ]
]

announce-times :
    (k t : Text) (s : Listening)
    → times t (announce k s).new_topic_target
      ≡ times t s.new_topic_target
        + (if (k =text t) && not (has_key t s.online_topic) then 1 else 0)
announce-times k t s = elim (Bool-cases (k =text t)) [
  | inl hit ↦ elim (Bool-cases (has_key k s.online_topic)) [
    | inl there ↦ rw (there, hit, sym (eq_of_=text k t hit), there) (omega arith)
    | inr fresh ↦
        rw
          (fresh, times-append t s.new_topic_target (k ∷ []), hit, sym (eq_of_=text k t hit), fresh)
          (omega arith)
  ]
  | inr miss ↦ elim (Bool-cases (has_key k s.online_topic)) [
    | inl there ↦ rw (there, miss) (omega arith)
    | inr fresh ↦ rw (fresh, times-append t s.new_topic_target (k ∷ []), miss) (omega arith)
  ]
]

-- what entering topics one after the other leaves
pub record Seen (topics : List Text) (u u' : Update) : Type 0 where
  pub listed : (t : Text) → has_key t u'.new_topic_map ≡ (mem t topics || has_key t u.new_topic_map)
  pub online :
      (t : Text)
      → has_key t u'.listening.online_topic ≡ (mem t topics || has_key t u.listening.online_topic)
  pub announced :
      (t : Text)
      → times t u'.listening.new_topic_target
        ≡ times t u.listening.new_topic_target
          + (if mem t topics && not (has_key t u.listening.online_topic) then 1 else 0)
  pub triggers : u'.listening.pre_off_trigger ≡ u.listening.pre_off_trigger
  pub unique : Unique u.listening.online_topic → Unique u'.listening.online_topic

announce-triggers : (k : Text) (s : Listening) → (announce k s).pre_off_trigger ≡ s.pre_off_trigger
announce-triggers k s = elim (Bool-cases (has_key k s.online_topic)) [
  | inl there ↦ rw there refl
  | inr fresh ↦ rw fresh refl
]

announce-Unique :
    (k : Text) (s : Listening) → Unique s.online_topic → Unique (announce k s).online_topic
announce-Unique k s u = elim (Bool-cases (has_key k s.online_topic)) [
  | inl there ↦ rw there u
  | inr fresh ↦ rw fresh (insert-Unique k tt s.online_topic u)
]

counts_add :
    (n : ℕ) (hit later known : Bool)
    → n + (if hit && not known then 1 else 0) + (if later && not (hit || known) then 1 else 0)
      ≡ n + (if (if hit then true else later) && not known then 1 else 0)
counts_add n hit later known = ground arith

or_mem :
    (hit later known : Bool) → (later || (hit || known)) ≡ ((if hit then true else later) || known)
or_mem true true known = refl
or_mem true false known = refl
or_mem false later known = refl

pub see_all-Seen : (topics : List Text) (u : Update) → Seen topics u (see_all topics u)
unfolding see_all see_topic
see_all-Seen [] u = record {
  listed = λ t. refl;
  online = λ t. refl;
  announced = λ t. omega arith;
  triggers = refl;
  unique = λ h. h;
}
see_all-Seen (k ∷ topics) u =
    let r = see_all-Seen topics (see_topic k u) in
    record {
      listed = λ t.
          r.listed t
          ∙ ap (λ b. mem t topics || b) (has_key-insert k t u.new_topic_map)
          ∙ or_mem (k =text t) (mem t topics) (has_key t u.new_topic_map);
      online = λ t.
          r.online t
          ∙ ap (λ b. mem t topics || b) (announce-has_key k t u.listening)
          ∙ or_mem (k =text t) (mem t topics) (has_key t u.listening.online_topic);
      announced = λ t.
          r.announced t
          ∙ rw (announce-has_key k t u.listening, announce-times k t u.listening)
              (counts_add (times t u.listening.new_topic_target) (k =text t) (mem t topics)
                (has_key t u.listening.online_topic));
      triggers = r.triggers ∙ announce-triggers k u.listening;
      unique = λ h. r.unique (announce-Unique k u.listening h);
    }
