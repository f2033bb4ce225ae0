-- ===== src/Task/Once.antt =====
-- Each connect server of a group's online users is called once.
use axis_chat_server.Prelude.{
  ℕ, ◌+◌, ◌≡◌, refl, Bool, Bool-cases, true, false, ◌||◌, ◌&&◌, not, inl, inr, none, List, [], ◌∷◌,
  map, arith, Text, ◌=text◌, eq_of_=text, ◌==◌, if◌then◌else◌, ap, subst, ◌∙◌,
}
use axis_chat_server.Common.Param.{
  op_group_info_send, op_group_oline_user_count_send, op_group_msg_send, op_friend_online_send,
  op_friend_off_online_send,
}
use axis_chat_server.Common.Keys.{group_online_user, userid_map_server_id}
use axis_chat_server.Common.Redis.{Client, Cluster, ok, redis_hget_all, redis_get_string}
use axis_chat_server.Logic.Data.{Stored}
use axis_chat_server.Task.{
  Payload, Call, Round, goes_on, returned, mem, without_id, server_id_map, calls, group_status_call,
  push_status_msg_to_connect, push_msg_to_connect, group_msg_call,
}

-- how often a server id stands in a list
abbrev pub times : Text → List Text → ℕ
times s [] = 0
times s (t ∷ ts) = if t =text s then 1 + times s ts else times s ts

-- the server ids of the online users
abbrev pub ids_of : List (Text × Text) → List Text
ids_of users = map (λ e. e.1) users

times-without_id :
    (s t : Text) (ts : List Text)
    → times s (without_id t ts) ≡ (if t =text s then 0 else times s ts)
times-without_id s t [] = ground arith
times-without_id s t (u ∷ us) = elim (Bool-cases (u =text t)) [
  | inl hit ↦ rw (hit, eq_of_=text u t hit) (times-without_id s t us ∙ ground arith)
  | inr miss ↦ elim (Bool-cases (t =text s)) [
    | inl same ↦
        let out : (u =text s) ≡ false =
          subst (λ x. (u =text x) ≡ false) (eq_of_=text t s same) miss in
        rw (miss, same, out) (times-without_id s t us ∙ rw same refl)
    | inr apart ↦
        rw (miss, apart)
          (ap (λ n. if u =text s then 1 + n else n) (times-without_id s t us ∙ rw apart refl))
  ]
]

times-server_id_map :
    (s : Text) (users : List (Text × Text))
    → times s (server_id_map users) ≡ (if mem s (ids_of users) then 1 else 0)
unfolding server_id_map
times-server_id_map s [] = refl
times-server_id_map s ((user, t) ∷ users) = elim (Bool-cases (t =text s)) [
  | inl hit ↦ rw (hit, times-without_id s t (server_id_map users), hit) refl
  | inr miss ↦
      rw (miss, times-without_id s t (server_id_map users), miss) (times-server_id_map s users)
]

-- a call for each server id that counts
abbrev pub Once : (Text → Call) → (Text → Bool) → List (Text × Text) → Round → Type 0
Once call counts users round =
    (ids : List Text) × (round ≡ goes_on (map call ids))
    × ((s : Text) → times s ids ≡ (if mem s (ids_of users) && counts s then 1 else 0))

abbrev pub is_named : Text → Bool
is_named s = not ([] =text s)

abbrev pub any_id : Text → Bool
any_id s = true

calls-Once :
    (call : Text → Call) (users : List (Text × Text))
    → Once call is_named users (goes_on (calls call (server_id_map users)))
calls-Once call users = (
  without_id [] (server_id_map users),
  refl,
  λ s. ground (arith, times-without_id s [] (server_id_map users), times-server_id_map s users),
)

module _ {R : Type 0} (api : Client R Stored) where
  -- A worker hands the information or the count of a group, when redis gives the group's online
  -- users, to each connect server that one of them is on, once, to no other server and to none without
  -- an id.
  pub push_status_msg_to_connect-Once :
      (msg : Payload) (c : Cluster R) (users : List (Text × Text))
      → ((msg.op == op_group_info_send) || (msg.op == op_group_oline_user_count_send)) ≡ true
      → (redis_hget_all api (group_online_user msg.group_id) c).0 ≡ ok users
      → Once (group_status_call msg) is_named users (push_status_msg_to_connect api msg c).0
  unfolding push_status_msg_to_connect
  push_status_msg_to_connect-Once msg c users op got =
      rw (push_status_msg_to_connect, op, got) (calls-Once (group_status_call msg) users)

  -- A worker hands a group's chat message, when redis gives the group's online users, to each server id
  -- that one of them has, once, and to no other.
  pub push_msg_to_connect-Once :
      (msg : Payload) (c : Cluster R) (users : List (Text × Text))
      → msg.op ≡ op_group_msg_send
      → (redis_hget_all api (group_online_user msg.group_id) c).0 ≡ ok users
      → Once (λ id. group_msg_call id msg) any_id users (push_msg_to_connect api msg c).0
  unfolding push_msg_to_connect
  push_msg_to_connect-Once msg c users op got =
      let t : (msg.op == op_group_msg_send) ≡ true = ground arith in
      rw (push_msg_to_connect, t, got)
        (server_id_map users, refl, λ s. ground (arith, times-server_id_map s users))

  -- A status message of a friend without a server id in the cache ends the worker's loop.
  pub push_status_msg_to_connect-returned :
      (msg : Payload) (c : Cluster R)
      → ((msg.op == op_friend_online_send) || (msg.op == op_friend_off_online_send)) ≡ true
      → (redis_get_string api (userid_map_server_id msg.belong) c).0 ≡ ok none
      → (push_status_msg_to_connect api msg c).0 ≡ returned
  unfolding push_status_msg_to_connect
  push_status_msg_to_connect-returned msg c op got =
      let other : ((msg.op == op_group_info_send) || (msg.op == op_group_oline_user_count_send))
          ≡ false =
        ground arith in
      rw (push_status_msg_to_connect, other, op, got) refl
