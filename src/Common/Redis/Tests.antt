-- ===== src/Common/Redis/Tests.antt =====
-- One server in memory, as the client library's commands.
use axis_chat_server.Prelude.{
  ℕ, ◌+◌, zero, suc, ◌≡◌, refl, ◌≢◌, Bool, Bool-cases, true, false, inl, inr, Option, none, some,
  is_some, List, [], ◌∷◌, Text, ◌=text◌, =text_refl, eq_of_=text, ◌∙◌, if◌then◌else◌, arith, ap,
  sym,
}
use axis_chat_server.Prelude.Int.{ℤ, pos, negsuc, incr, decr}
use axis_chat_server.Ring.{HashBalance, new_hash_balance}
use axis_chat_server.Common.Redis.{
  Client, value, nil, Cluster, ok, lenient, redis_is_not_exist_hset, redis_hdel, redis_hset,
}
use axis_chat_server.Common.Redis.Effects.{Hashes, Table, table_at, reply_of}
use axis_chat_server.Prelude.Atoi.{split}
use axis_chat_server.Prelude.TextMap.{lookup, insert, delete, lookup-insert, lookup-delete}
use axis_chat_server.Common.Redis.{parse_address, add_server, init_redis}
use axis_chat_server.Common.Redis.Start.{answering, init_redis-Reachable}
use axis_chat_server.Common.Redis.Answering.{Answers, Reachable}
use axis_chat_server.Common.Redis.Cached.{CacheOptions, Json, get_set}
use axis_chat_server.Common.Redis.Twice.{get_set-get_set}
use axis_chat_server.Common.Redis.Strings.{Strings, string_reply}

-- A hash table with its fields listed.
pub record Listing : Type 0 where
  pub rows : List (Text × Text)
  pub size : ℤ
  pub number : Text → ℤ

abbrev pub no_listing : Listing
no_listing = record { rows = []; size = pos 0; number = λ f. pos 0 }

abbrev pub as_table : Listing → Table
as_table t = record { field = λ f. lookup f t.rows; size = t.size; number = t.number }

pub record Server (V : Type 0) : Type 0 where
  pub strings : Text → Option V
  pub tables : Text → Listing
  pub queue : List V
  pub locks : Text → Option Text

abbrev pub at {ℓ} : {A : Type ℓ} → Text → A → (Text → A) → Text → A
at k a f j = if k =text j then a else f j

abbrev plus : ℤ → ℤ → ℤ
plus (pos zero) y = y
plus (pos (suc n)) y = incr (plus (pos n) y)
plus (negsuc zero) y = decr y
plus (negsuc (suc n)) y = decr (plus (negsuc n) y)

abbrev with_field : Text → Text → Listing → Listing
with_field f v t = record t {
  rows = insert f v t.rows;
  size = if is_some (lookup f t.rows) then t.size else incr t.size;
}

abbrev without_field : Text → Listing → Listing
without_field f t = record t {
  rows = delete f t.rows;
  size = if is_some (lookup f t.rows) then decr t.size else t.size;
}

abbrev counted_up : Text → ℤ → Listing → Listing
counted_up f x t = record t { number = at f (plus x (t.number f)) t.number }

abbrev with_table : {V : Type 0} → Text → (Listing → Listing) → Server V → Server V
with_table k act r = record r { tables = at k (act (r.tables k)) r.tables }

abbrev pub client : {V : Type 0} → Client (Server V) V
client = record {
  get_ = λ k r. (string_reply (r.strings k), r);
  set_ = λ k v x r. (value tt, record r { strings = at k (some v) r.strings });
  del_ = λ k r.
      (value tt, record r { strings = at k none r.strings; tables = at k no_listing r.tables });
  hget = λ k f r. (reply_of (lookup f (r.tables k).rows), r);
  hset = λ k f v r. (value tt, with_table k (with_field f v) r);
  hincr_by = λ k f x r. (value (plus x ((r.tables k).number f)), with_table k (counted_up f x) r);
  hget_all = λ k r. (value (r.tables k).rows, r);
  hdel = λ k f r. (value tt, with_table k (without_field f) r);
  incr_ = λ k r. (value (pos 0), r);
  decr_ = λ k r. (value (pos 0), r);
  lpush = λ k v r. (value tt, record r { queue = v ∷ r.queue });
  brpop = λ t k r. (nil, r);
}

pub at_self : {A : Type 0} (k : Text) (a : A) (f : Text → A) → at k a f k ≡ a
at_self k a f = rw (=text_refl k) refl

-- after a change at one key, the table of that key
pub changed :
    {V : Type 0} (k : Text) (act : Listing → Listing) (r : Server V)
    → (with_table k act r).tables k ≡ act (r.tables k)
changed k act r = at_self k (act (r.tables k)) r.tables

pub apart :
    {A : Type 0} (k j : Text) (a : A) (f : Text → A) → (k =text j) ≡ false → at k a f j ≡ f j
apart k j a f e = rw e refl

plus-step :
    (up : Bool) (x : ℤ) → plus (if up then pos 1 else negsuc 0) x ≡ (if up then incr x else decr x)
plus-step true x = refl
plus-step false x = refl

pub counted :
    (f g : Text) (up : Bool) (t : Listing)
    → (counted_up f (if up then pos 1 else negsuc 0) t).number g
      ≡ (if f =text g then (if up then incr (t.number g) else decr (t.number g)) else t.number g)
counted f g up t = elim (Bool-cases (f =text g)) [
  | inl hit ↦ rw (hit, sym (eq_of_=text f g hit)) (plus-step up (t.number f))
  | inr miss ↦ rw miss refl
]

abbrev pub server_hashes : {V : Type 0} → Hashes (Server V) V client
server_hashes = record {
  table = λ k r. as_table (r.tables k);
  hget_same = λ k f r. refl;
  get_same = λ k r. refl;
  hget_all_same = λ k r. refl;
  hset_size = λ k f v r e. ap (λ (t : Listing). t.size) (changed k (with_field f v) r);
  hset_field = λ k f v g r e.
      ap (λ (t : Listing). lookup g t.rows) (changed k (with_field f v) r)
      ∙ lookup-insert f g v (r.tables k).rows;
  hset_frame = λ k f v j r e. ap as_table (apart k j (with_field f v (r.tables k)) r.tables e);
  hdel_size = λ k f r e. ap (λ (t : Listing). t.size) (changed k (without_field f) r);
  hdel_field = λ k f g r e.
      ap (λ (t : Listing). lookup g t.rows) (changed k (without_field f) r)
      ∙ lookup-delete f g (r.tables k).rows;
  hdel_frame = λ k f j r e. ap as_table (apart k j (without_field f (r.tables k)) r.tables e);
  hincr_number = λ k f g up n r e.
      ap (λ (t : Listing). t.number g) (changed k (counted_up f (if up then pos 1 else negsuc 0)) r)
      ∙ counted f g up (r.tables k);
  hincr_frame = λ k f j x r e. ap as_table (apart k j (counted_up f x (r.tables k)) r.tables e);
  lpush_frame = λ k j v r e. refl;
  set_frame = λ k j v x r e. refl;
}

abbrev pub server_strings : {V : Type 0} → Strings (Server V) V client
server_strings = record {
  string = λ k r. r.strings k;
  get_value = λ k r. refl;
  set_value = λ k v x r e. at_self k (some v) r.strings;
  set_frame = λ k j v x r e. apart k j (some v) r.strings e;
  del_value = λ k r e. at_self k none r.strings;
  del_frame = λ k j r e. apart k j none r.strings e;
}

pub string_answers :
    {V : Type 0} (o : Option V) → (o' : Option V) × (lenient (ok (string_reply o)) ≡ ok o')
string_answers none = (none, refl)
string_answers (some v) = (some v, refl)

abbrev pub server_answers : {V : Type 0} → Answers (Server V) V client
server_answers = record {
  get_answers = λ k r. string_answers (r.strings k);
  del_answers = λ k r. (some tt, refl);
  set_answers = λ k v x r. refl;
  hset_answers = λ k f v r. refl;
  hdel_answers = λ k f r. refl;
  hincr_answers = λ k f x r. (plus x ((r.tables k).number f), refl);
  hget_all_answers = λ k r. ((r.tables k).rows, refl);
  lpush_answers = λ k v r. refl;
}

-- The ring has one server, with the name "r".
abbrev pub cluster_of : {V : Type 0} → Server V → Cluster (Server V)
cluster_of r = record {
  client = λ a. some r;
  consistent_hash = record {
    hash = λ t. 0;
    replicas = 1;
    keys = 0 ∷ [];
    hash_map = (0, b'r' ∷ []) ∷ [];
  };
}

abbrev pub nothing : {V : Type 0} → Server V
nothing = record { strings = λ k. none; tables = λ k. no_listing; queue = []; locks = λ k. none }

abbrev a_key : Text
a_key = b'k' ∷ []

abbrev one_field : Cluster (Server ℕ)
one_field = cluster_of (with_table a_key (with_field (b'f' ∷ []) (b's' ∷ [])) nothing)

not_blank : (table_at client server_hashes a_key one_field).field (b'f' ∷ []) ≢ some []
unfolding axis_chat_server.Ring.get axis_chat_server.Ring.ring_key axis_chat_server.Ring.search
not_blank e = cc

enters : (redis_is_not_exist_hset client a_key (b'f' ∷ []) (b'v' ∷ []) one_field).0 ≡ ok true
unfolding redis_is_not_exist_hset redis_hset axis_chat_server.Ring.get
    axis_chat_server.Ring.ring_key axis_chat_server.Ring.search
enters = refl

leaves : (redis_hdel client a_key (b'f' ∷ []) one_field).0 ≡ ok true
unfolding redis_hdel axis_chat_server.Ring.get axis_chat_server.Ring.ring_key
    axis_chat_server.Ring.search
leaves = refl

pub cluster_of-Reachable : {V : Type 0} (r : Server V) → Reachable (cluster_of r)
unfolding axis_chat_server.Ring.get axis_chat_server.Ring.ring_key axis_chat_server.Ring.search
cluster_of-Reachable r key = (b'r' ∷ [], r, refl)

-- "a@1"
abbrev one_address : Text
one_address = b'a' ∷ b'@' ∷ b'1' ∷ []

abbrev connects_all : Text → ℤ → Option (Server ℕ)
connects_all host port = some nothing

one_answers : answering connects_all (split b';' one_address) ≡ true
unfolding split parse_address
one_answers = refl

abbrev started : Cluster (Server ℕ)
started =
    add_server one_address nothing
      (record { client = λ a. none; consistent_hash = new_hash_balance (λ t. 0) 16 none })

starts : init_redis connects_all (λ t. 0) one_address ≡ some started
unfolding init_redis split parse_address
starts = refl

init_redis-Reachable_example : Reachable started
init_redis-Reachable_example =
    init_redis-Reachable connects_all (λ t. 0) one_address started (λ t. omega arith) one_answers
      starts

abbrev plain : Json ℕ ℕ
plain = record { marshal = λ n. some n; unmarshal = λ v. some v }

-- A function that answers another number each time.
abbrev counting : CacheOptions ℕ ℕ
counting = record {
  key = a_key;
  duration = 60;
  fun = λ d. (some (some d), d + 1);
  receiver = some 0;
}

first_read : (get_set client plain counting (cluster_of nothing, 5)).0 ≡ ok (some 5)
unfolding get_set axis_chat_server.Common.Redis.redis_get_string
    axis_chat_server.Common.Redis.redis_set_string axis_chat_server.Ring.get
    axis_chat_server.Ring.ring_key axis_chat_server.Ring.search
first_read = refl

get_set-get_set_example :
    ((get_set client plain counting (get_set client plain counting (cluster_of nothing, 5)).1).0
      ≡ ok (some 5))
    × ((get_set client plain counting (get_set client plain counting (cluster_of nothing, 5)).1).1.1
        ≡ (get_set client plain counting (cluster_of nothing, 5)).1.1)
get_set-get_set_example =
    get_set-get_set client server_strings server_answers plain (λ a buf e. sym e) counting
      (cluster_of nothing) 5 5 (cluster_of-Reachable nothing) first_read
