-- ===== src/Common/Redis/Fields.antt =====
-- RedisIsNotExistHSet, RedisHDel and RedisHINCRBY when they return without an error: what they
-- answer, and what becomes of the number of fields and of the integers in other tables.
use axis_chat_server.Prelude.{
  ◌≡◌, refl, ◌≢◌, Bool, Bool-cases, true, false, inl, inr, Option, none, some, is_some, [], Text,
  ◌=text◌, eq_of_=text, arith, if◌then◌else◌, ap, sym, ◌∙◌,
}
use axis_chat_server.Prelude.Int.{ℤ, pos, negsuc, incr, decr}
use axis_chat_server.Common.Redis.{
  Client, Reply, hdel_next, Result, ok, err, RedisError, Cluster, get_redis_client_by_key,
  on_client, strict, has_val, then_result, or_refused, redis_is_not_exist_hset, redis_hset,
  redis_hincr_by, redis_hdel,
}
use axis_chat_server.Common.Redis.Views.{on_client-kept}
use axis_chat_server.Common.Redis.Effects.{
  Hashes, Table, no_table, table_at, hget-kept, hget-field, hset-Ok, hdel-Ok, hincr-Ok,
}

then_result-ok :
    {E A : Type 0} (x : Result E A) (b has : Bool)
    → then_result b x ≡ ok has
    → (b ≡ has) × (a : A) × (x ≡ ok a)
then_result-ok (ok a) b has e = (cc, a, refl)
then_result-ok (err x) b has e = cc

then_unit-ok : {E A : Type 0} (x : Result E A) → then_result tt x ≡ ok tt → (a : A) × (x ≡ ok a)
then_unit-ok (ok a) e = (a, refl)
then_unit-ok (err x) e = cc

-- the answer and the state of a command that reports a field
or_refused-ok :
    {E A C : Type 0} (x : Result E A) (c : C) (next : Result E Bool × C) (has : Bool)
    → (or_refused x c next).0 ≡ ok has
    → or_refused x c next ≡ next
or_refused-ok (ok a) c next has e = refl
or_refused-ok (err x) c next has e = cc

abbrev pub grown : ℤ → Bool → ℤ
grown x has = if has then x else incr x

abbrev pub shrunk : ℤ → Bool → ℤ
shrunk x has = if has then decr x else x

-- what becomes of a field that is looked at when one is deleted, or was not there
abbrev pub gone : Text → Text → Option Text → Option Text
gone f g o = if f =text g then none else o

module _ {R V : Type 0} (api : Client R V) (hashes : Hashes R V api) where
  -- The answer says whether the field was there, the table has the size `resize` of the size before
  -- and the answer, and the field as `f'` says; the tables of other keys stay.
  pub record Reported (resize : ℤ → Bool → ℤ) (f' : Text → Option Text → Option Text) (key f : Text)
      (c c' : Cluster R) (has : Bool) : Type 0 where
    pub answer : has ≡ is_some ((table_at api hashes key c).field f)
    pub size : (table_at api hashes key c').size ≡ resize (table_at api hashes key c).size has
    pub fields :
        (g : Text)
        → (table_at api hashes key c').field g ≡ f' g ((table_at api hashes key c).field g)
    pub others :
        (j : Text) → (key =text j) ≡ false → table_at api hashes j c' ≡ table_at api hashes j c

  abbrev after_hget : Text → Text → Cluster R → Cluster R
  after_hget key f c = (on_client key (api.hget key f) c).1

  abbrev after_hdel : Text → Text → Cluster R → Result RedisError (Reply Unit) × Cluster R
  after_hdel key f c = on_client key (api.hdel key f) (after_hget key f c)

  -- the table of any key after an HGET
  read :
      (j key f : Text) (c : Cluster R)
      → table_at api hashes j (after_hget key f c) ≡ table_at api hashes j c
  read j key f c = hget-kept api hashes (hashes.table j) no_table j key f c

  -- RedisIsNotExistHSet of a field that does not hold the empty text, when it returns without an
  -- error: it answers whether the field was there, and then the field holds the value, the table has
  -- one field more if it was not there, its other fields and the tables of other keys are as before.
  -- It is assumed that redis answers every HGET.
  pub is_not_exist_hset-Reported :
      (key f v : Text) (c : Cluster R) (has : Bool)
      → (table_at api hashes key c).field f ≢ some []
      → (redis_is_not_exist_hset api key f v c).0 ≡ ok has
      → Reported grown
          (λ g o. if f =text g then some v else o)
          key
          f
          c
          (redis_is_not_exist_hset api key f v c).1
          has
  unfolding redis_is_not_exist_hset redis_hset
  is_not_exist_hset-Reported key f v c has blank e =
      let c1 = after_hget key f c in
      let c2 = (on_client key (api.hset key f v) c1).1 in
      let old = has_val (on_client key (api.hget key f) c).0 in
      let stored = strict (on_client key (api.hset key f v) c1).0 in
      let run : redis_is_not_exist_hset api key f v c ≡ (then_result old stored, c2) =
        or_refused-ok (get_redis_client_by_key key c) c (then_result old stored, c2) has e in
      let (said, t, good) = then_result-ok stored old has (sym (ap (λ p. p.0) run) ∙ e) in
      let answer = sym said ∙ hget-field api hashes key f c blank in
      let (size, fields) = hset-Ok api hashes key f v c1 good in
      rw run (record {
        answer = answer;
        size =
            size
            ∙ ap (λ (t : Table). grown t.size (is_some (t.field f))) (read key key f c)
            ∙ ap (grown (table_at api hashes key c).size) (sym answer);
        fields = λ g.
            fields g
            ∙ ap (λ (t : Table). if f =text g then some v else t.field g) (read key key f c);
        others = λ j apart.
            on_client-kept (hashes.table j) no_table j key (api.hset key f v) c1
              (λ r. hashes.hset_frame key f v j r apart)
            ∙ read j key f c;
      })

  missing :
      (f g : Text) (t : Table) → is_some (t.field f) ≡ false → t.field g ≡ gone f g (t.field g)
  missing f g t out = elim (Bool-cases (f =text g)) [
    | inr other ↦ rw other refl
    | inl hit ↦ rw (hit, sym (eq_of_=text f g hit)) (ground arith)
  ]

  hdel-next :
      (key f : Text) (c : Cluster R) (has old : Bool)
      → old ≡ is_some ((table_at api hashes key c).field f)
      → (hdel_next old (after_hdel key f c) (after_hget key f c)).0 ≡ ok has
      → Reported shrunk
          (gone f)
          key
          f
          c
          (hdel_next old (after_hdel key f c) (after_hget key f c)).1
          has
  hdel-next key f c has true answer e =
      let c1 = after_hget key f c in
      let (said, t, good) = then_result-ok (strict (after_hdel key f c).0) true has e in
      let (size, fields) = hdel-Ok api hashes key f c1 good in
      record {
        answer = sym said ∙ answer;
        size =
            size
            ∙ ap (λ (t : Table). shrunk t.size (is_some (t.field f))) (read key key f c)
            ∙ ap (shrunk (table_at api hashes key c).size) (sym answer ∙ said);
        fields = λ g. fields g ∙ ap (λ (t : Table). gone f g (t.field g)) (read key key f c);
        others = λ j apart.
            on_client-kept (hashes.table j) no_table j key (api.hdel key f) c1
              (λ r. hashes.hdel_frame key f j r apart)
            ∙ read j key f c;
      }
  hdel-next key f c has false answer e =
      let said : false ≡ has = cc in
      record {
        answer = sym said ∙ answer;
        size =
            ap (λ (t : Table). t.size) (read key key f c)
            ∙ ap (shrunk (table_at api hashes key c).size) said;
        fields = λ g.
            ap (λ (t : Table). t.field g) (read key key f c)
            ∙ missing f g (table_at api hashes key c) (sym answer);
        others = λ j apart. read j key f c;
      }

  -- RedisHDel of a field that does not hold the empty text, when it returns without an error: it
  -- answers whether the field was there, and then the field is gone, the table has one field less if
  -- it was there, its other fields and the tables of other keys are as before. It is assumed that
  -- redis answers every HGET.
  pub redis_hdel-Reported :
      (key f : Text) (c : Cluster R) (has : Bool)
      → (table_at api hashes key c).field f ≢ some []
      → (redis_hdel api key f c).0 ≡ ok has
      → Reported shrunk (gone f) key f c (redis_hdel api key f c).1 has
  unfolding redis_hdel
  redis_hdel-Reported key f c has blank e =
      let old = has_val (on_client key (api.hget key f) c).0 in
      let next = hdel_next old (after_hdel key f c) (after_hget key f c) in
      let run : redis_hdel api key f c ≡ next =
        or_refused-ok (get_redis_client_by_key key c) c next has e in
      rw run (
        hdel-next key f c has old (hget-field api hashes key f c blank)
          (sym (ap (λ p. p.0) run) ∙ e))

  -- a count by one up or down
  pub redis_hincr_by-number :
      (key f : Text) (up : Bool) (c : Cluster R)
      → (redis_hincr_by api key f (if up then pos 1 else negsuc 0) c).0 ≡ ok tt
      → (g : Text)
      → (table_at api hashes key
            (redis_hincr_by api key f (if up then pos 1 else negsuc 0) c).1).number
          g
        ≡ (if f =text g
            then (if up
                then incr ((table_at api hashes key c).number g)
                else decr ((table_at api hashes key c).number g))
            else (table_at api hashes key c).number g)
  unfolding redis_hincr_by
  redis_hincr_by-number key f up c e =
      let (n, good) =
        then_unit-ok
          (strict (on_client key (api.hincr_by key f (if up then pos 1 else negsuc 0)) c).0) e in
      hincr-Ok api hashes key f up n c good
