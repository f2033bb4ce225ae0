-- ===== src/Common/Redis/Twice.antt =====
-- A read through the cache, twice.
use axis_chat_server.Prelude.{◌≡◌, refl, Option, none, some, [], ◌∷◌, Text, ap, sym, subst, ◌∙◌}
use axis_chat_server.Common.Redis.{Client, Cluster, Result, ok, redis_get_string, redis_set_string}
use axis_chat_server.Common.Redis.Strings.{Strings, string_at, get-string, set-Stores}
use axis_chat_server.Common.Redis.Answering.{
  Answers, Reachable, get_string-Returns, set_string-Returns,
}
use axis_chat_server.Common.Redis.Cached.{
  CacheOptions, Json, CacheError, Cached, parsed, stored_as, store, computed, looked_up,
  with_receiver, get_set,
}

module _ {R V A : Type 0} (api : Client R V) (strings : Strings R V api) (json : Json A V) where
  -- The cache has an entry that reads as the value, and the servers are reachable.
  pub record Holds (key : Text) (a : A) (c : Cluster R) : Type 0 where
    pub entry : V
    pub here : string_at api strings key c ≡ some entry
    pub reads : json.unmarshal entry ≡ some a
    pub reach : Reachable c

parsed-eq :
    {A : Type 0} (o : Option A) (a : A)
    → ◌≡◌ {A = Result CacheError (Option A)} (parsed o) (ok (some a))
    → o ≡ some a
parsed-eq none a e = cc
parsed-eq (some b) a e = cc

module _ {R V A D : Type 0} (api : Client R V) (strings : Strings R V api)
    (answers : Answers R V api) (json : Json A V) where
  store-Holds :
      (o : CacheOptions A D) (a' a : A) (buf : Option V) (c : Cluster R) (d : D)
      → ((v : V) → buf ≡ some v → json.unmarshal v ≡ some a')
      → Reachable c
      → (store api json o a' buf (c, d)).0 ≡ ok (some a)
      → Holds api strings json o.key a (store api json o a' buf (c, d)).1.0
  store-Holds o a' a none c d law reach e = cc
  store-Holds o a' a (some v) c d law reach e =
      let (t, good, reach1) = set_string-Returns api answers o.key v o.duration c reach in
      let s = set-Stores api strings o.key v o.duration c good in
      let c1 = (redis_set_string api o.key v o.duration c).1 in
      let done : stored_as api json a' (redis_set_string api o.key v o.duration c) d
          ≡ (ok (some a'), (c1, d)) =
        ap (λ x. stored_as api json a' (x, c1) d) good in
      let same : ok (some a') ≡ ok (some a) = sym (ap (λ p. p.0) done) ∙ e in
      let eq : a' ≡ a = cc in
      subst (λ (c' : Cluster R). Holds api strings json o.key a c') (sym (ap (λ p. p.1.0) done))
        record { entry = v; here = s.here; reads = law v refl ∙ ap some eq; reach = reach1 }

  computed-Holds :
      ((a : A) (buf : V) → json.marshal a ≡ some buf → json.unmarshal buf ≡ some a)
      → (o : CacheOptions A D) (q : Option (Option A) × D) (c : Cluster R) (a : A) → Reachable c
      → (computed api json o q c).0 ≡ ok (some a)
      → Holds api strings json o.key a (computed api json o q c).1.0
  computed-Holds law o (none, d) c a reach e = cc
  computed-Holds law o (some none, d) c a reach e = cc
  computed-Holds law o (some (some a'), d) c a reach e =
      store-Holds o a' a (json.marshal a') c d (law a') reach e

  looked_up-Holds :
      ((a : A) (buf : V) → json.marshal a ≡ some buf → json.unmarshal buf ≡ some a)
      → (o : CacheOptions A D) (c : Cluster R) (d : D) (a : A) (entry : Option V) → Reachable c
      → string_at api strings o.key c ≡ entry
      → (looked_up api json o (ok entry, c) d).0 ≡ ok (some a)
      → Holds api strings json o.key a (looked_up api json o (ok entry, c) d).1.0
  looked_up-Holds law o c d a none reach here e = computed-Holds law o (o.fun d) c a reach e
  looked_up-Holds law o c d a (some v) reach here e = record {
    entry = v;
    here = here;
    reads = parsed-eq (json.unmarshal v) a e;
    reach = reach;
  }

  with_receiver-Holds :
      ((a : A) (buf : V) → json.marshal a ≡ some buf → json.unmarshal buf ≡ some a)
      → (o : CacheOptions A D) (key : Text) (r : Option A) (c : Cluster R) (d : D) (a : A)
      → Reachable c
      → (with_receiver api json o key r (c, d)).0 ≡ ok (some a)
      → Holds api strings json o.key a (with_receiver api json o key r (c, d)).1.0
        × ((s : Cached R D)
            → with_receiver api json o key r s
              ≡ looked_up api json o (redis_get_string api o.key s.0) s.1)
  with_receiver-Holds law o key none c d a reach e = cc
  with_receiver-Holds law o [] (some x) c d a reach e = cc
  with_receiver-Holds law o (b ∷ bs) (some x) c d a reach e =
      let (entry, got, reach1) = get_string-Returns api answers o.key c reach in
      let c1 = (redis_get_string api o.key c).1 in
      let (was, kept) = get-string api strings o.key c entry got in
      let run : looked_up api json o (redis_get_string api o.key c) d
          ≡ looked_up api json o (ok entry, c1) d =
        ap (λ q. looked_up api json o (q, c1) d) got in
      (
        subst
            (λ (p : Result CacheError (Option A) × Cached R D).
              Holds api strings json o.key a p.1.0)
            (sym run)
            (looked_up-Holds law o c1 d a entry reach1 (kept o.key ∙ was)
              (sym (ap (λ p. p.0) run) ∙ e)),
        λ s. refl,
      )

  again :
      (o : CacheOptions A D) (c : Cluster R) (d : D) (a : A)
      → Holds api strings json o.key a c
      → ((looked_up api json o (redis_get_string api o.key c) d).0 ≡ ok (some a))
        × ((looked_up api json o (redis_get_string api o.key c) d).1.1 ≡ d)
  again o c d a h =
      let (entry, got, reach1) = get_string-Returns api answers o.key c h.reach in
      let c1 = (redis_get_string api o.key c).1 in
      let (was, kept) = get-string api strings o.key c entry got in
      let run : looked_up api json o (redis_get_string api o.key c) d ≡ (parsed (some a), (c1, d)) =
        ap (λ q. looked_up api json o (q, c1) d) (got ∙ ap ok (sym was ∙ h.here))
        ∙ ap (λ x. (parsed x, (c1, d))) h.reads in
      (ap (λ p. p.0) run, ap (λ p. p.1.1) run)

  -- A read through the cache that gives a value, while the servers are reachable and answer and no entry
  -- expires: the next read with the same options gives the same value, and does not run the function
  -- of the options, whose state stays. It is assumed that a value is read back from its JSON.
  pub get_set-get_set :
      ((a : A) (buf : V) → json.marshal a ≡ some buf → json.unmarshal buf ≡ some a)
      → (o : CacheOptions A D) (c : Cluster R) (d : D) (a : A) → Reachable c
      → (get_set api json o (c, d)).0 ≡ ok (some a)
      → ((get_set api json o (get_set api json o (c, d)).1).0 ≡ ok (some a))
        × ((get_set api json o (get_set api json o (c, d)).1).1.1 ≡ (get_set api json o (c, d)).1.1)
  unfolding get_set
  get_set-get_set law o c d a reach e =
      let (holds, run) = with_receiver-Holds law o o.key o.receiver c d a reach e in
      let s = (get_set api json o (c, d)).1 in
      let (same, kept) = again o s.0 s.1 a holds in
      (ap (λ p. p.0) (run s) ∙ same, ap (λ p. p.1.1) (run s) ∙ kept)
