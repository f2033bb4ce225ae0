-- ===== src/Logic/Data.antt =====
-- The records of db/model.go and common/param.go that logic/ handles, and the interfaces it calls.
use axis_chat_server.Prelude.{ℕ, Bool, true, false, Option, none, some, List, [], ◌∷◌, Text}
use axis_chat_server.Prelude.Int.{ℤ}
use axis_chat_server.Common.Redis.{Cluster, Result, ok, err, RedisError}

-- The times and the mark of a deletion are left out.
pub record TUser : Type 0 where
  pub id : ℕ
  pub username : Text
  pub password : Text
  pub avatar : Text
  pub role : ℕ
  pub status : ℕ
  pub tag : Text

abbrev pub no_user : TUser
no_user = record {
  id = 0;
  username = [];
  password = [];
  avatar = [];
  role = 0;
  status = 0;
  tag = [];
}

pub record TGroup : Type 0 where
  pub id : ℕ
  pub userid : ℕ
  pub group_name : Text
  pub notice : Text

-- the relation's type: "friend" or "group"
pub data RelationType : Type 0 where
  friend : RelationType
  group : RelationType

-- What goes to the queue of status messages.
pub data StatusMsg : Type 0 where
  friend_online_msg : (op friend_id : ℕ) → (friend_name : Text) → (belong : ℕ) → StatusMsg
  friend_offline_msg : (op friend_id belong : ℕ) → StatusMsg
  group_info_msg :
      (op group_id : ℕ)
      → (count : ℤ) → (user_arr : List TUser) → (online_user_ids : List ℤ) → StatusMsg
  group_count_msg : (op group_id : ℕ) → (count : ℤ) → StatusMsg
  no_msg : StatusMsg

-- What the code stores in a string or list of the cache.
pub data Stored : Type 0 where
  text : Text → Stored
  user_json : TUser → Stored
  ids_json : List ℕ → Stored
  status_json : StatusMsg → Stored

-- string(res) == ""
abbrev pub is_blank : Option Stored → Bool
is_blank none = true
is_blank (some (text [])) = true
is_blank (some (text (b ∷ bs))) = false
is_blank (some (user_json user)) = false
is_blank (some (ids_json ids)) = false
is_blank (some (status_json msg)) = false

-- json.Unmarshal into a `TUser`, whose failure leaves the zero record
abbrev pub as_user : Option Stored → TUser
as_user (some (user_json user)) = user
as_user (some (text t)) = no_user
as_user (some (ids_json ids)) = no_user
as_user (some (status_json msg)) = no_user
as_user none = no_user

-- string(token)
abbrev pub as_text : Option Stored → Text
as_text (some (text t)) = t
as_text (some (user_json user)) = []
as_text (some (ids_json ids)) = []
as_text (some (status_json msg)) = []
as_text none = []

-- the functions of db/curd.go that logic/ calls, over the database's state
pub record Db (D : Type 0) : Type 0 where
  pub query_user_all_group_id : ℕ → D → List ℕ
  pub query_user_all_friend_id : ℕ → D → List ℕ
  pub query_group_all_user : ℕ → D → List TUser
  pub query_user_by_user_name : Text → D → TUser
  pub query_user_by_id : ℕ → D → TUser
  pub query_group_by_group_name : Text → D → ℕ
  pub create_user : TUser → D → TUser × D
  pub create_group : TGroup → D → TGroup × D
  pub create_relation : RelationType → ℕ → ℕ → D → ℕ × D
  pub update_user_password : ℕ → Text → D → Bool × D

-- bcrypt: an empty hash is a failure.
pub record Passwords : Type 0 where
  pub enc_password : Text → Text
  pub verify_pwd : Text → Text → Bool

pub record World (R D : Type 0) : Type 0 where
  pub cache : Cluster R
  pub db : D

pub data LogicError : Type 0 where
  system_error : LogicError
  illegal_access_token : LogicError
  user_exists : LogicError
  no_such_user : LogicError
  wrong_password : LogicError
  logout_failed : LogicError
  no_user_info : LogicError
  passwords_differ : LogicError
  group_name_used : LogicError
  create_group_failed : LogicError
  add_group_failed : LogicError
  redis_error : RedisError → LogicError

-- an early return on an error, with the error that the handler gives
abbrev pub or_fail :
    {W E A B : Type 0}
    → (E → LogicError)
    → Result E A × W
    → (A → W → Result LogicError B × W)
    → Result LogicError B × W
or_fail fail (err e, w) next = (err (fail e), w)
or_fail fail (ok a, w) next = next a w

abbrev pub system : {E : Type 0} → E → LogicError
system e = system_error

abbrev pub same : LogicError → LogicError
same e = e

-- a step of the cache, seen as a step of the whole state
abbrev pub on_cache :
    {R D E A : Type 0} → (Cluster R → Result E A × Cluster R) → World R D → Result E A × World R D
on_cache step w = let (res, cache') = step w.cache in (res, record w { cache = cache' })
