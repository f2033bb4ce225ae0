-- ===== src/Task/Queue/Triggered.antt =====
-- What the loop with the triggers leaves, and the deletions behind it.
use axis_chat_server.Prelude.{
  ◌≡◌, refl, Bool, Bool-cases, true, false, not, ◌&&◌, inl, inr, Option, none, some, is_some, List,
  [], ◌∷◌, Text, ◌=text◌, =text_refl, eq_of_=text, if◌then◌else◌, ap, sym, ◌∙◌, arith,
}
use axis_chat_server.Prelude.TextMap.{
  lookup, insert, delete, has_key, lookup-insert, lookup-delete, Unique,
}
use axis_chat_server.Task.{mem}
use axis_chat_server.Task.Queue.{Listening, trigger_old, delete_all}

-- what the loop with the triggers leaves
pub record Triggered (topics new : List (Text × Unit {0})) (s s' : Listening) (old : List Text)
    : Type 0 where
  pub online : s'.online_topic ≡ s.online_topic
  pub target : s'.new_topic_target ≡ s.new_topic_target
  pub triggers :
      (t : Text)
      → lookup t s'.pre_off_trigger ≡ (
          if has_key t topics && not (has_key t new) then some true else lookup t s.pre_off_trigger)
  pub going : (t : Text) → mem t old ≡ (has_key t topics && not (has_key t new))

-- Every topic that goes has a trigger in which no value waits.
abbrev pub IsReady : List (Text × Unit {0}) → List (Text × Unit {0}) → Listening → Type 0
IsReady topics new s =
    (t : Text)
    → has_key t topics ≡ true
    → has_key t new ≡ false
    → lookup t s.pre_off_trigger ≡ some false

no_key :
    (k t : Text) (m : List (Text × Unit {0}))
    → lookup k m ≡ none
    → has_key t m ≡ true
    → (k =text t) ≡ false
no_key k t m fresh e = elim (Bool-cases (k =text t)) [
  | inr apart ↦ apart
  | inl same ↦
      let bad : false ≡ true =
        ap is_some (sym fresh) ∙ ap (λ x. has_key x m) (eq_of_=text k t same) ∙ e in
      absurd cc
]

key_behind :
    (k t : Text) (m : List (Text × Unit {0})) → has_key t m ≡ true → has_key t ((k, tt) ∷ m) ≡ true
key_behind k t m e = elim (Bool-cases (k =text t)) [ inl h ↦ rw h refl | inr h ↦ rw h e ]

-- A topic that stays does not go.
key_stays :
    (k t : Text) (x : Unit {0}) (topics new : List (Text × Unit {0}))
    → has_key k new ≡ true
    → (has_key t topics && not (has_key t new))
      ≡ (has_key t ((k, x) ∷ topics) && not (has_key t new))
key_stays k t x topics new stays = elim (Bool-cases (k =text t)) [
  | inr miss ↦ rw miss refl
  | inl hit ↦
      let known : has_key t new ≡ true =
        ap (λ y. has_key y new) (sym (eq_of_=text k t hit)) ∙ stays in
      rw (hit, known) (ground arith)
]

triggered_first :
    (hit later : Bool) (o : Option Bool)
    → (if later then some true else (if hit then some true else o))
      ≡ (if (if hit then true else later) then some true else o)
triggered_first true true o = refl
triggered_first true false o = refl
triggered_first false later o = refl

-- One that goes is the only one that is added.
key_goes :
    (k t : Text) (x : Unit {0}) (topics new : List (Text × Unit {0}))
    → has_key k new ≡ false
    → (if k =text t then true else has_key t topics && not (has_key t new))
      ≡ (has_key t ((k, x) ∷ topics) && not (has_key t new))
key_goes k t x topics new goes = elim (Bool-cases (k =text t)) [
  | inr miss ↦ rw miss refl
  | inl hit ↦
      let out : has_key t new ≡ false =
        ap (λ y. has_key y new) (sym (eq_of_=text k t hit)) ∙ goes in
      rw (hit, out) refl
]

pub trigger_old-Triggered :
    (topics new : List (Text × Unit {0})) (s : Listening)
    → Unique topics
    → IsReady topics new s
    → (s' : Listening) × (old : List Text) × (trigger_old topics new s ≡ some (s', old))
      × Triggered topics new s s' old
unfolding trigger_old
trigger_old-Triggered [] new s u ready =
    (s, [], refl, record { online = refl; target = refl; triggers = λ t. refl; going = λ t. refl })
trigger_old-Triggered ((k, x) ∷ topics) new s (fresh, u) ready = elim (Bool-cases (has_key k new)) [
  | inl stays ↦
      let (s', old, ran, r) =
        trigger_old-Triggered topics new s u (λ t e out. ready t (key_behind k t topics e) out) in
      (
        s',
        old,
        rw (trigger_old, stays, ran) (rw stays refl),
        record {
          online = r.online;
          target = r.target;
          triggers = λ t.
              r.triggers t
              ∙ ap (λ b. if b then some true else lookup t s.pre_off_trigger)
                  (key_stays k t x topics new stays);
          going = λ t. r.going t ∙ key_stays k t x topics new stays;
        },
      )
  | inr goes ↦
      let free : lookup k s.pre_off_trigger ≡ some false = ready k (rw (=text_refl k) refl) goes in
      let s1 : Listening = record s { pre_off_trigger = insert k true s.pre_off_trigger } in
      let (s', old, ran, r) = trigger_old-Triggered topics new s1 u (λ t e out.
        lookup-insert k t true s.pre_off_trigger
        ∙ rw (no_key k t topics fresh e) (ready t (key_behind k t topics e) out)) in
      (
        s',
        k ∷ old,
        rw (trigger_old, goes, free, ran) (rw goes refl),
        record {
          online = r.online;
          target = r.target;
          triggers = λ t.
              r.triggers t
              ∙ ap (λ o. if has_key t topics && not (has_key t new) then some true else o)
                  (lookup-insert k t true s.pre_off_trigger)
              ∙ triggered_first (k =text t) (has_key t topics && not (has_key t new))
                  (lookup t s.pre_off_trigger)
              ∙ ap (λ b. if b then some true else lookup t s.pre_off_trigger)
                  (key_goes k t x topics new goes);
          going = λ t.
              ap (λ b. if k =text t then true else b) (r.going t) ∙ key_goes k t x topics new goes;
        },
      )
]

has_key-delete :
    (k t : Text) (m : List (Text × Unit {0}))
    → has_key t (delete k m) ≡ (has_key t m && not (k =text t))
has_key-delete k t m = elim (Bool-cases (k =text t)) [
  | inl hit ↦ rw (lookup-delete k t m, hit) (ground arith)
  | inr miss ↦ rw (lookup-delete k t m, miss) (ground arith)
]

pub has_key-delete_all :
    (t : Text) (old : List Text) (m : List (Text × Unit {0}))
    → has_key t (delete_all old m) ≡ (has_key t m && not (mem t old))
has_key-delete_all t [] m = ground arith
has_key-delete_all t (k ∷ old) m =
    has_key-delete_all t old (delete k m)
    ∙ ap (λ b. b && not (mem t old)) (has_key-delete k t m)
    ∙ ground arith
