-- ===== src/Common/Lock/Freed.antt =====
-- Who holds a lock after Acquire and Release.
use axis_chat_server.Prelude.{
  ℕ, ◌+◌, ◌*◌, ◌≡◌, Bool, true, false, inl, inr, Option, Option-cases, none, some, is_some, Text,
  if◌then◌else◌, ap, sym, ◌∙◌,
}
use axis_chat_server.Common.Redis.{value, nil, Result, ok, err, RedisError, Cluster, on_client}
use axis_chat_server.Common.Redis.Views.{view_at, seen, on_client-acts}
use axis_chat_server.Common.Lock.{
  Scripts, RedisLockObj, ok_text, acquired, released, acquire, release, tolerance,
  millis_per_second,
}

-- What redis documents of the two scripts.
pub record Locks (R : Type 0) (scripts : Scripts R) : Type 0 where
  pub held : Text → R → Option Text
  pub lock_free :
      (k v : Text) (x : ℕ) (r : R)
      → held k r ≡ none
      → ((scripts.lock_command k v x r).0 ≡ value ok_text)
        × (held k (scripts.lock_command k v x r).1 ≡ some v)
  pub lock_held :
      (k v other : Text) (x : ℕ) (r : R)
      → held k r ≡ some other
      → scripts.lock_command k v x r ≡ (nil, r)
  pub del_held :
      (k : Text) (r : R)
      → ((scripts.del_command k r).0 ≡ value (if is_some (held k r) then 1 else 0))
        × (held k (scripts.del_command k r).1 ≡ none)

ok-inj : (a b : Bool) → ◌≡◌ {A = Result RedisError Bool} (ok a) (ok b) → b ≡ a
ok-inj a b e = cc

released-done :
    (held done : Bool) → released (ok (value (if held then 1 else 0))) ≡ ok done → done ≡ held
released-done true done e = cc
released-done false done e = cc

module _ {R : Type 0} (scripts : Scripts R) (locks : Locks R scripts) where
  -- the holder of a key's lock
  abbrev pub holder : Text → Cluster R → Option Text
  holder key c = view_at (locks.held key) none key c

  -- What Acquire does: it takes a free lock, and leaves one that is held.
  pub acquire-holder :
      (rl : RedisLockObj) (c : Cluster R) (taken : Bool)
      → (acquire scripts rl c).0 ≡ ok taken
      → (taken ≡ (if is_some (holder rl.key c) then false else true))
        × (holder rl.key (acquire scripts rl c).1
            ≡ (if is_some (holder rl.key c) then holder rl.key c else some rl.value_))
  unfolding acquire
  acquire-holder rl c taken e =
      let px = rl.timeout * millis_per_second + tolerance in
      elim (on_client-acts rl.key (scripts.lock_command rl.key rl.value_ px) c) [
        | inl (x, refused, same) ↦
            let bad : err x ≡ ok taken = sym (ap (λ p. acquired p.0) same) ∙ e in absurd cc
        | inr (address, r, here, acted, after) ↦
            let now : holder rl.key c ≡ locks.held rl.key r =
              ap (seen (locks.held rl.key) none) here in
            let later : holder rl.key
                  (on_client rl.key (scripts.lock_command rl.key rl.value_ px) c).1
                ≡ locks.held rl.key (scripts.lock_command rl.key rl.value_ px r).1 =
              ap (λ p. holder rl.key p.1) acted ∙ ap (seen (locks.held rl.key) none) after in
            let said : acquired (ok (scripts.lock_command rl.key rl.value_ px r).0) ≡ ok taken =
              sym (ap (λ p. acquired p.0) acted) ∙ e in
            elim (Option-cases (locks.held rl.key r)) [
              | inl free ↦
                  let (reply, set) = locks.lock_free rl.key rl.value_ px r free in
                  let yes_ : ok true ≡ ok taken = sym (ap (λ a. acquired (ok a)) reply) ∙ said in
                  (rw (now, free) (ok-inj true taken yes_), rw (now, free) (later ∙ set))
              | inr (other, busy) ↦
                  let kept = locks.lock_held rl.key rl.value_ other px r busy in
                  let no_ : ok false ≡ ok taken = sym (ap (λ p. acquired (ok p.0)) kept) ∙ said in
                  (
                    rw (now, busy) (ok-inj false taken no_),
                    rw (now, busy) (later ∙ ap (λ p. locks.held rl.key p.1) kept ∙ busy),
                  )
            ]
      ]

  -- A Release that returns without an error frees the lock, whoever holds it, and answers whether it was
  -- held.
  pub release-holder :
      (rl : RedisLockObj) (c : Cluster R) (done : Bool)
      → (release scripts rl c).0 ≡ ok done
      → (done ≡ is_some (holder rl.key c)) × (holder rl.key (release scripts rl c).1 ≡ none)
  unfolding release
  release-holder rl c done e = elim (on_client-acts rl.key (scripts.del_command rl.key) c) [
    | inl (x, refused, same) ↦
        let bad : err x ≡ ok done = sym (ap (λ p. released p.0) same) ∙ e in absurd cc
    | inr (address, r, here, acted, after) ↦
        let now : holder rl.key c ≡ locks.held rl.key r = ap (seen (locks.held rl.key) none) here in
        let (reply, gone) = locks.del_held rl.key r in
        let said : released (ok (value (if is_some (locks.held rl.key r) then 1 else 0)))
            ≡ ok done =
          sym (ap (λ p. released p.0) acted ∙ ap (λ a. released (ok a)) reply) ∙ e in
        (
          rw now (released-done (is_some (locks.held rl.key r)) done said),
          ap (λ p. holder rl.key p.1) acted ∙ ap (seen (locks.held rl.key) none) after ∙ gone,
        )
  ]

  -- When one client holds a lock, a Release by another, of a lock object with the same key and any value,
  -- that returns without an error ends it: the next Acquire of the key, by anybody, takes the lock, if it
  -- returns without an error.
  pub release-acquire :
      (mine other third : RedisLockObj) (c : Cluster R) (done taken : Bool)
      → other.key ≡ mine.key
      → third.key ≡ mine.key
      → holder mine.key c ≡ some mine.value_
      → (release scripts other c).0 ≡ ok done
      → (acquire scripts third (release scripts other c).1).0 ≡ ok taken
      → (done ≡ true)
        × (taken ≡ true)
        × (holder mine.key (acquire scripts third (release scripts other c).1).1
            ≡ some third.value_)
  release-acquire mine other third c done taken same same' held e e' =
      let (was, free) = release-holder other c done e in
      let (got, now) = acquire-holder third (release scripts other c).1 taken e' in
      let open_ : holder third.key (release scripts other c).1 ≡ none =
        ap (λ k. holder k (release scripts other c).1) (same' ∙ sym same) ∙ free in
      (
        was ∙ ap (λ k. is_some (holder k c)) same ∙ ap is_some held,
        got ∙ ap (λ o. if is_some o then false else true) open_,
        ap (λ k. holder k (acquire scripts third (release scripts other c).1).1) (sym same')
            ∙ now
            ∙ ap (λ o. if is_some o then o else some third.value_) open_,
      )
