-- ===== src/Discovery/Key.antt =====
-- The server id in a key of etcd: `strings.Split(key, "&")[1]`, less each "serverId=".
use axis_chat_server.Prelude.Atoi.{split}
use axis_chat_server.Prelude.{
  ℕ, zero, suc, ◌+◌, ◌≡◌, refl, Option, none, some, [], ◌∷◌, ◌++◌, Text, ◌=text◌, length, get_elem?,
  take, drop, if◌then◌else◌,
}

-- `strings.Replace(s, pattern, "", -1)` of a pattern that is not empty
unfoldable pub remove_all : ℕ → Text → Text → Text
remove_all zero pattern_ s = s
remove_all (suc fuel) pattern_ [] = []
remove_all (suc fuel) pattern_ (c ∷ s) =
    let skip = remove_all fuel pattern_ (drop (length pattern_) (c ∷ s)) in
    let keep = c ∷ remove_all fuel pattern_ s in
    if take (length pattern_) (c ∷ s) =text pattern_ then skip else keep

-- "serverId="
abbrev pub server_id_label : Text
server_id_label = b's' ∷ b'e' ∷ b'r' ∷ b'v' ∷ b'e' ∷ b'r' ∷ b'I' ∷ b'd' ∷ b'=' ∷ []

-- `none` is the panic on a key without "&".
unfoldable pub server_id_of : Text → Option Text
unfolding split remove_all
server_id_of key = elim (get_elem? (split b'&' key) 1) [
  | none ↦ none
  | some part ↦ some (remove_all (length part + 1) server_id_label part)
]

-- "a&serverId=ws&b" has the server id "ws".
server_id_of_test :
    server_id_of (b'a' ∷ b'&' ∷ server_id_label ++ b'w' ∷ b's' ∷ b'&' ∷ b'b' ∷ [])
    ≡ some (b'w' ∷ b's' ∷ [])
unfolding server_id_of
server_id_of_test = refl
