-- ===== src/Common/Redis/Effects.antt =====
-- What the commands on hash tables are documented to do to a server, and the same of the functions
-- that send them.
use axis_chat_server.Prelude.{
  ℕ, ◌≡◌, refl, ◌≢◌, Bool, false, inl, inr, Option, none, some, is_some, [], ◌∷◌, Text, ◌=text◌,
  if◌then◌else◌, ap, ◌∙◌,
}
use axis_chat_server.Prelude.Int.{ℤ, pos, negsuc, incr, decr}
use axis_chat_server.Common.Redis.{
  Client, Reply, value, nil, ok, Cluster, on_client, strict, has_val,
}
use axis_chat_server.Common.Redis.Views.{
  view_at, seen, on_client-acts, on_client-kept, on_client-ok,
}

abbrev pub reply_of : Option Text → Reply Text
reply_of none = nil
reply_of (some v) = value v

-- A hash table as its fields, the number of them and the integers that they hold.
pub record Table : Type 0 where
  pub field : Text → Option Text
  pub size : ℤ
  pub number : Text → ℤ

abbrev pub no_table : Table
no_table = record { field = λ f. none; size = pos 0; number = λ f. pos 0 }

-- What each command, when it replies, is documented to do to the table of its key, and that it
-- leaves the tables of the other keys. That an HGET always replies is part of it (`hget_same`).
pub record Hashes (R V : Type 0) (api : Client R V) : Type 0 where
  pub table : Text → R → Table
  pub hget_same : (k f : Text) (r : R) → api.hget k f r ≡ (reply_of ((table k r).field f), r)
  pub get_same : (k : Text) (r : R) → (api.get_ k r).1 ≡ r
  pub hget_all_same : (k : Text) (r : R) → (api.hget_all k r).1 ≡ r
  pub hset_size :
      (k f v : Text) (r : R)
      → (api.hset k f v r).0 ≡ value tt
      → (table k (api.hset k f v r).1).size
        ≡ (if is_some ((table k r).field f) then (table k r).size else incr (table k r).size)
  pub hset_field :
      (k f v g : Text) (r : R)
      → (api.hset k f v r).0 ≡ value tt
      → (table k (api.hset k f v r).1).field g ≡ (if f =text g then some v else (table k r).field g)
  pub hset_frame :
      (k f v j : Text) (r : R) → (k =text j) ≡ false → table j (api.hset k f v r).1 ≡ table j r
  pub hdel_size :
      (k f : Text) (r : R)
      → (api.hdel k f r).0 ≡ value tt
      → (table k (api.hdel k f r).1).size
        ≡ (if is_some ((table k r).field f) then decr (table k r).size else (table k r).size)
  pub hdel_field :
      (k f g : Text) (r : R)
      → (api.hdel k f r).0 ≡ value tt
      → (table k (api.hdel k f r).1).field g ≡ (if f =text g then none else (table k r).field g)
  pub hdel_frame :
      (k f j : Text) (r : R) → (k =text j) ≡ false → table j (api.hdel k f r).1 ≡ table j r
  pub hincr_number :
      (k f g : Text) (up : Bool) (n : ℤ) (r : R)
      → (api.hincr_by k f (if up then pos 1 else negsuc 0) r).0 ≡ value n
      → (table k (api.hincr_by k f (if up then pos 1 else negsuc 0) r).1).number g ≡ (
          if f =text g
          then (if up then incr ((table k r).number g) else decr ((table k r).number g))
          else (table k r).number g)
  pub hincr_frame :
      (k f j : Text) (x : ℤ) (r : R)
      → (k =text j) ≡ false
      → table j (api.hincr_by k f x r).1 ≡ table j r
  pub lpush_frame :
      (k j : Text) (v : V) (r : R) → (k =text j) ≡ false → table j (api.lpush k v r).1 ≡ table j r
  pub set_frame :
      (k j : Text) (v : V) (expire : ℕ) (r : R)
      → (k =text j) ≡ false
      → table j (api.set_ k v expire r).1 ≡ table j r

module _ {R V : Type 0} (api : Client R V) (hashes : Hashes R V api) where
  -- the table of a key, on the key's server
  abbrev pub table_at : Text → Cluster R → Table
  table_at key c = view_at (hashes.table key) no_table key c

  has_val-reply_of : (o : Option Text) → o ≢ some [] → has_val (ok (reply_of o)) ≡ is_some o
  has_val-reply_of none blank = refl
  has_val-reply_of (some []) blank = absurd (blank refl)
  has_val-reply_of (some (b ∷ bs)) blank = refl

  pub hget-kept :
      {A : Type 0} (w : R → A) (d : A) (other key f : Text) (c : Cluster R)
      → view_at w d other (on_client key (api.hget key f) c).1 ≡ view_at w d other c
  hget-kept w d other key f c =
      on_client-kept w d other key (api.hget key f) c
        (λ r. ap (λ p. w p.1) (hashes.hget_same key f r))

  -- The answer of HGET through the ring.
  pub hget-field :
      (key f : Text) (c : Cluster R)
      → (table_at key c).field f ≢ some []
      → has_val (on_client key (api.hget key f) c).0 ≡ is_some ((table_at key c).field f)
  hget-field key f c blank = elim (on_client-acts key (api.hget key f) c) [
    | inl (e, refused, same) ↦ rw refused refl
    | inr (address, r, here, acted, after) ↦
        let blank' : (hashes.table key r).field f ≢ some [] =
          λ h. blank (ap (λ x. (seen (hashes.table key) no_table x).field f) here ∙ h) in
        rw (here, hashes.hget_same key f r) (has_val-reply_of ((hashes.table key r).field f) blank')
  ]

  pub hset-Ok :
      (key f v : Text) (c : Cluster R)
      → strict (on_client key (api.hset key f v) c).0 ≡ ok tt
      → ((table_at key (on_client key (api.hset key f v) c).1).size ≡ (
          if is_some ((table_at key c).field f)
          then (table_at key c).size
          else incr (table_at key c).size))
        × ((g : Text)
            → (table_at key (on_client key (api.hset key f v) c).1).field g
              ≡ (if f =text g then some v else (table_at key c).field g))
  hset-Ok key f v c good =
      let (address, r, said, here, after) = on_client-ok key (api.hset key f v) c tt good in
      rw (after, here) (hashes.hset_size key f v r said, λ g. hashes.hset_field key f v g r said)

  pub hdel-Ok :
      (key f : Text) (c : Cluster R)
      → strict (on_client key (api.hdel key f) c).0 ≡ ok tt
      → ((table_at key (on_client key (api.hdel key f) c).1).size ≡ (
          if is_some ((table_at key c).field f)
          then decr (table_at key c).size
          else (table_at key c).size))
        × ((g : Text)
            → (table_at key (on_client key (api.hdel key f) c).1).field g
              ≡ (if f =text g then none else (table_at key c).field g))
  hdel-Ok key f c good =
      let (address, r, said, here, after) = on_client-ok key (api.hdel key f) c tt good in
      rw (after, here) (hashes.hdel_size key f r said, λ g. hashes.hdel_field key f g r said)

  pub hincr-Ok :
      (key f : Text) (up : Bool) (n : ℤ) (c : Cluster R)
      → strict (on_client key (api.hincr_by key f (if up then pos 1 else negsuc 0)) c).0 ≡ ok n
      → (g : Text)
      → (table_at key
            (on_client key (api.hincr_by key f (if up then pos 1 else negsuc 0)) c).1).number
          g
        ≡ (if f =text g
            then (if up then incr ((table_at key c).number g) else decr ((table_at key c).number g))
            else (table_at key c).number g)
  hincr-Ok key f up n c good g =
      let (address, r, said, here, after) =
        on_client-ok key (api.hincr_by key f (if up then pos 1 else negsuc 0)) c n good in
      rw (after, here) (hashes.hincr_number key f g up n r said)
