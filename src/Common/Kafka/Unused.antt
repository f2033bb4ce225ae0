-- ===== src/Common/Kafka/Unused.antt =====
-- The watcher, when no producer runs at the same time.
use axis_chat_server.Prelude.{
  ℕ, ◌≡◌, refl, Bool-cases, Option-cases, true, false, inl, inr, Option, none, some, is_some, List,
  [], ◌∷◌, Text, ◌=text◌, =text_refl, eq_of_=text, if◌then◌else◌, ap, sym, subst, ◌∙◌,
}
use axis_chat_server.Prelude.TextMap.{lookup, has_key, lookup-delete, Unique}
use axis_chat_server.Common.Kafka.{
  KafkaClient, Producing, drop_conn, expired, close_unused, watch_long_time_not_use_conn,
}
use axis_chat_server.Common.Kafka.Routed.{Topics, IsRouted, drop_conn-IsRouted}

module _ {K C V : Type 0} (api : KafkaClient K C V) (topics : Topics K C V api) where
  -- Closing a connection takes no time.
  abbrev pub ClockKept : Type 0
  ClockKept = (c : C) (k : K) → api.now (api.close_ c k) ≡ api.now k

  -- the time of a connection that the watcher keeps
  abbrev pub unless_expired : Producing K C → Option ℕ → Option ℕ
  unless_expired w none = none
  unless_expired w (some val) = if expired api val w then none else some val

  -- What the loop over some entries leaves.
  record Closed (entries : List (Text × ℕ)) (w w' : Producing K C) : Type 0 where
    routed : IsRouted api topics w'.pool
    times :
        (t : Text)
        → lookup t w'.pool.create_time ≡ (
            if has_key t entries
            then unless_expired w (lookup t w.pool.create_time)
            else lookup t w.pool.create_time)

  -- A key that has no entry is not one of those that have.
  fresh-apart :
      (key t : Text) (val : ℕ) (entries : List (Text × ℕ))
      → lookup key entries ≡ none
      → lookup t entries ≡ some val
      → (key =text t) ≡ false
  fresh-apart key t val entries fresh e = elim (Bool-cases (key =text t)) [
    | inr apart ↦ apart
    | inl same ↦
        let bad : none ≡ some val =
          sym fresh ∙ ap (λ k. lookup k entries) (eq_of_=text key t same) ∙ e in
        absurd cc
  ]

  same_clock :
      (w w1 : Producing K C) (o : Option ℕ)
      → api.now w1.kafka ≡ api.now w.kafka
      → unless_expired w1 o ≡ unless_expired w o
  same_clock w w1 none e = refl
  same_clock w w1 (some val) e = rw e refl

  keyed :
      (w : Producing K C) (o : Option ℕ)
      → (if is_some o then unless_expired w o else o) ≡ unless_expired w o
  keyed w none = refl
  keyed w (some val) = refl

  -- the times after one entry and those behind it, in terms of the times before
  step_times :
      (key t : Text) (val : ℕ) (entries : List (Text × ℕ)) (w w1 : Producing K C)
      → lookup key entries ≡ none
      → lookup key w1.pool.create_time ≡ unless_expired w (lookup key w.pool.create_time)
      → ((key =text t) ≡ false → lookup t w1.pool.create_time ≡ lookup t w.pool.create_time)
      → api.now w1.kafka ≡ api.now w.kafka
      → (if has_key t entries
          then unless_expired w1 (lookup t w1.pool.create_time)
          else lookup t w1.pool.create_time)
        ≡ (if has_key t ((key, val) ∷ entries)
            then unless_expired w (lookup t w.pool.create_time)
            else lookup t w.pool.create_time)
  step_times key t val entries w w1 fresh at rest clock = elim (Bool-cases (key =text t)) [
    | inl hit ↦
        subst
          (λ x.
            (if has_key x entries
              then unless_expired w1 (lookup x w1.pool.create_time)
              else lookup x w1.pool.create_time)
            ≡ (if has_key x ((key, val) ∷ entries)
                then unless_expired w (lookup x w.pool.create_time)
                else lookup x w.pool.create_time))
          (eq_of_=text key t hit) (rw (fresh, =text_refl key) at)
    | inr miss ↦ rw (miss, rest miss, same_clock w w1 (lookup t w.pool.create_time) clock) refl
  ]

  close_unused-Closed :
      ClockKept
      → (entries : List (Text × ℕ)) (w : Producing K C) → IsRouted api topics w.pool
      → Unique entries
      → ((t : Text) (val : ℕ)
          → lookup t entries ≡ some val
          → lookup t w.pool.create_time ≡ some val)
      → (w' : Producing K C) × (close_unused api entries w ≡ some w') × Closed entries w w'
  unfolding close_unused
  close_unused-Closed clock [] w r u known = (w, refl, record { routed = r; times = λ t. refl })
  close_unused-Closed clock ((key, val) ∷ entries) w r (fresh, u) known =
      let here : lookup key w.pool.create_time ≡ some val =
        known key val (rw (=text_refl key) refl) in
      elim (Bool-cases (expired api val w)) [
        | inr fit ↦
            let (w', ran, c) =
              close_unused-Closed clock entries w r u
                (λ t v e. known t v (rw (fresh-apart key t v entries fresh e) e)) in
            (
              w',
              rw (close_unused, fit) ran,
              record {
                routed = c.routed;
                times = λ t.
                    c.times t
                    ∙ step_times key t val entries w w fresh (rw (here, fit) refl) (λ a. refl) refl;
              },
            )
        | inl old ↦ elim (Option-cases (lookup key w.pool.socket_map)) [
          | inl missing ↦
              let bad : false ≡ true = sym (ap is_some missing) ∙ r.paired key ∙ ap is_some here in
              absurd cc
          | inr (conn, found) ↦
              let w1 : Producing K C =
                drop_conn key (record w { kafka = api.close_ conn w.kafka }) in
              let (w', ran, c) =
                close_unused-Closed clock entries w1
                  (drop_conn-IsRouted api topics key (record w { kafka = api.close_ conn w.kafka })
                    r)
                  u
                  (λ t v e.
                    lookup-delete key t w.pool.create_time
                    ∙ rw (fresh-apart key t v entries fresh e)
                        (known t v (rw (fresh-apart key t v entries fresh e) e))) in
              (
                w',
                rw (close_unused, old, found) ran,
                record {
                  routed = c.routed;
                  times = λ t.
                      c.times t
                      ∙ step_times key t val entries w w1 fresh
                          (lookup-delete key key w.pool.create_time
                            ∙ rw (=text_refl key, here, old) refl)
                          (λ a. lookup-delete key t w.pool.create_time ∙ rw a refl)
                          (clock conn w.kafka);
                },
              )
        ]
      ]

  -- A run of the watcher, with no step of a producer between its parts, finds a connection for each time that it looks at. It leaves the producers
  -- well-formed, removes the time of each topic that was not used for more than a minute, and keeps every
  -- other time. It is assumed that closing a connection takes no time.
  pub watch-Closed :
      ClockKept
      → (w : Producing K C) → IsRouted api topics w.pool
      → (w' : Producing K C) × (watch_long_time_not_use_conn api w ≡ some w')
        × IsRouted api topics w'.pool
        × ((t : Text)
            → lookup t w'.pool.create_time ≡ unless_expired w (lookup t w.pool.create_time))
  unfolding watch_long_time_not_use_conn
  watch-Closed clock w r =
      let (w', ran, c) = close_unused-Closed clock w.pool.create_time w r r.unique (λ t v e. e) in
      (w', ran, c.routed, λ t. c.times t ∙ keyed w (lookup t w.pool.create_time))
