-- ===== src/Common/Redis/Views.antt =====
-- What a command changes, and what it leaves as it was, seen through the ring: a view of a key is a
-- function of the state of the server that the key belongs to.
use axis_chat_server.Prelude.{
  ◌≡◌, refl, Bool-cases, false, ◌⊎◌, inl, inr, Option, Option-cases, none, some, [], Text, ◌=text◌,
  =text_refl, eq_of_=text, ap, sym, ◌∙◌,
}
use axis_chat_server.Ring.{get}
use axis_chat_server.Common.Redis.{
  strict, Reply, value, nil, failed, Result, ok, err, RedisError, Cluster, get_redis_client_by_key,
  no_node, no_address, no_client, run_on, find_client, on_client, answered,
}

abbrev pub seen : {R A : Type 0} → (R → A) → A → Result RedisError (Text × R) → A
seen w d (err e) = d
seen w d (ok (address, r)) = w r

-- the view `w` of the server of a key, or `d` when there is none
abbrev pub view_at : {R A : Type 0} → (R → A) → A → Text → Cluster R → A
view_at w d key c = seen w d (get_redis_client_by_key key c)

strict-ok : {A : Type 0} (reply : Reply A) (a : A) → strict (ok reply) ≡ ok a → reply ≡ value a
strict-ok (value b) a e = cc
strict-ok nil a e = cc
strict-ok failed a e = cc

module _ {R A : Type 0} (w : R → A) (d : A) where
  answered-kept :
      {B : Type 0} (o : Option Text) (c : Cluster R) (address : Text) (r : R) (a : Reply B × R)
      → c.client address ≡ some r
      → w a.1 ≡ w r
      → seen w d (find_client o (answered address c a).1) ≡ seen w d (find_client o c)
  answered-kept none c address r (reply, r') e kept = refl
  answered-kept (some other) c address r (reply, r') e kept = elim (Bool-cases (other =text [])) [
    | inl blank ↦ rw blank refl
    | inr named ↦ elim (Bool-cases (address =text other)) [
      | inl same ↦ rw (named, same, sym (eq_of_=text address other same), e) kept
      | inr apart ↦ rw (named, apart) refl
    ]
  ]

module _ {R : Type 0} where
  -- A server was found under its own address.
  pub record Found (o : Option Text) (c : Cluster R) (address : Text) (r : R) : Type 0 where
    pub asked : o ≡ some address
    pub named : (address =text []) ≡ false
    pub known : c.client address ≡ some r

  pub find-cases :
      (o : Option Text) (c : Cluster R)
      → ((e : RedisError) × (find_client o c ≡ err e))
        ⊎ ((address : Text) × (r : R) × (find_client o c ≡ ok (address, r)) × Found o c address r)
  find-cases none c = inl (no_node, refl)
  find-cases (some other) c = elim (Bool-cases (other =text [])) [
    | inl blank ↦ inl (no_address, rw blank refl)
    | inr named ↦ elim (Option-cases (c.client other)) [
      | inl missing ↦ inl (no_client, rw (named, missing) refl)
      | inr (r, e) ↦
          inr (other, r, rw (named, e) refl, record { asked = refl; named = named; known = e })
    ]
  ]

  -- What a command does at its own key: it is refused and changes nothing, or it acts on the key's
  -- server.
  pub on_client-acts :
      {A : Type 0} (key : Text) (command : R → Reply A × R) (c : Cluster R)
      → ((e : RedisError) × (get_redis_client_by_key key c ≡ err e)
          × (on_client key command c ≡ (err e, c)))
        ⊎ ((address : Text) × (r : R) × (get_redis_client_by_key key c ≡ ok (address, r))
            × (on_client key command c ≡ answered address c (command r))
            × (get_redis_client_by_key key (answered address c (command r)).1
                ≡ ok (address, (command r).1)))
  on_client-acts key command c = elim (find-cases (get key c.consistent_hash) c) [
    | inl (e, refused) ↦ inl (e, refused, ap (run_on c command) refused)
    | inr (address, r, here, f) ↦ inr (
      address,
      r,
      here,
      ap (run_on c command) here,
      rw (f.asked, f.named, =text_refl address) refl,
    )
  ]

  -- A command that leaves a view of every server as it was leaves that view of every key.
  pub on_client-kept :
      {A B : Type 0} (w : R → A) (d : A) (other key : Text) (command : R → Reply B × R)
      (c : Cluster R)
      → ((r : R) → w (command r).1 ≡ w r)
      → view_at w d other (on_client key command c).1 ≡ view_at w d other c
  on_client-kept w d other key command c kept = elim (find-cases (get key c.consistent_hash) c) [
    | inl (e, refused) ↦ ap (λ f. view_at w d other (run_on c command f).1) refused
    | inr (address, r, here, f) ↦
        ap (λ x. view_at w d other (run_on c command x).1) here
        ∙ answered-kept w d (get other c.consistent_hash) c address r (command r) f.known (kept r)
  ]

  -- A command whose reply is good acted on the key's server.
  pub on_client-ok :
      {A : Type 0} (key : Text) (command : R → Reply A × R) (c : Cluster R) (a : A)
      → strict (on_client key command c).0 ≡ ok a
      → (address : Text) × (r : R) × ((command r).0 ≡ value a)
        × (get_redis_client_by_key key c ≡ ok (address, r))
        × (get_redis_client_by_key key (on_client key command c).1 ≡ ok (address, (command r).1))
  on_client-ok key command c a good = elim (on_client-acts key command c) [
    | inl (e, refused, same) ↦
        let bad : err e ≡ ok a = sym (ap (λ p. strict p.0) same) ∙ good in absurd cc
    | inr (address, r, here, acted, after) ↦
        let said : strict (ok (command r).0) ≡ ok a = sym (ap (λ p. strict p.0) acted) ∙ good in
        (
          address,
          r,
          strict-ok (command r).0 a said,
          here,
          ap (λ p. get_redis_client_by_key key p.1) acted ∙ after,
        )
  ]
