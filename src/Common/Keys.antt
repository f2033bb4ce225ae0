-- ===== src/Common/Keys.antt =====
-- common/redis.go: the keys of the cache.
use axis_chat_server.Prelude.{ℕ, [], ◌∷◌, Text}
use axis_chat_server.Prelude.Decimal.{decimal}

abbrev pub session : Text → Text
session s =
    b'a' ∷ b'x' ∷ b'i' ∷ b's' ∷ b':' ∷ b's' ∷ b'e' ∷ b's' ∷ b's' ∷ b'i' ∷ b'o' ∷ b'n' ∷ b':' ∷ s

abbrev pub userid_map_token : ℕ → Text
userid_map_token id =
    b'a'
    ∷ b'x'
    ∷ b'i'
    ∷ b's'
    ∷ b':'
    ∷ b'u'
    ∷ b's'
    ∷ b'e'
    ∷ b'r'
    ∷ b'_'
    ∷ b'm'
    ∷ b'a'
    ∷ b'p'
    ∷ b'_'
    ∷ b't'
    ∷ b'o'
    ∷ b'k'
    ∷ b'e'
    ∷ b'n'
    ∷ b':'
    ∷ decimal id

abbrev pub group_online_user : ℕ → Text
group_online_user id =
    b'a'
    ∷ b'x'
    ∷ b'i'
    ∷ b's'
    ∷ b':'
    ∷ b'g'
    ∷ b'r'
    ∷ b'o'
    ∷ b'u'
    ∷ b'p'
    ∷ b'_'
    ∷ b'o'
    ∷ b'n'
    ∷ b'l'
    ∷ b'i'
    ∷ b'n'
    ∷ b'e'
    ∷ b'_'
    ∷ b'u'
    ∷ b's'
    ∷ b'e'
    ∷ b'r'
    ∷ b':'
    ∷ decimal id

abbrev pub group_online_user_count : Text
group_online_user_count =
    b'a' ∷ b'x' ∷ b'i' ∷ b's' ∷ b':' ∷ b'g' ∷ b'r' ∷ b'o' ∷ b'u' ∷ b'p' ∷ b'_' ∷ b'o' ∷ b'n' ∷ b'l'
    ∷ b'i' ∷ b'n' ∷ b'e' ∷ b'_' ∷ b'u' ∷ b's' ∷ b'e' ∷ b'r' ∷ b'_' ∷ b'c' ∷ b'o' ∷ b'u' ∷ b'n'
    ∷ b't' ∷ []

abbrev pub userid_map_server_id : ℕ → Text
userid_map_server_id id =
    b'a'
    ∷ b'x'
    ∷ b'i'
    ∷ b's'
    ∷ b':'
    ∷ b'u'
    ∷ b's'
    ∷ b'e'
    ∷ b'r'
    ∷ b'i'
    ∷ b'd'
    ∷ b'_'
    ∷ b'm'
    ∷ b'a'
    ∷ b'p'
    ∷ b'_'
    ∷ b's'
    ∷ b'e'
    ∷ b'r'
    ∷ b'v'
    ∷ b'e'
    ∷ b'r'
    ∷ b'i'
    ∷ b'd'
    ∷ b':'
    ∷ decimal id

abbrev pub user_group_list : ℕ → Text
user_group_list id =
    b'a'
    ∷ b'x'
    ∷ b'i'
    ∷ b's'
    ∷ b':'
    ∷ b'u'
    ∷ b's'
    ∷ b'e'
    ∷ b'r'
    ∷ b'_'
    ∷ b'g'
    ∷ b'r'
    ∷ b'o'
    ∷ b'u'
    ∷ b'p'
    ∷ b'_'
    ∷ b'l'
    ∷ b'i'
    ∷ b's'
    ∷ b't'
    ∷ b':'
    ∷ decimal id

abbrev pub user_friend_list : ℕ → Text
user_friend_list id =
    b'a'
    ∷ b'x'
    ∷ b'i'
    ∷ b's'
    ∷ b':'
    ∷ b'u'
    ∷ b's'
    ∷ b'e'
    ∷ b'r'
    ∷ b'_'
    ∷ b'f'
    ∷ b'r'
    ∷ b'i'
    ∷ b'e'
    ∷ b'n'
    ∷ b'd'
    ∷ b'_'
    ∷ b'l'
    ∷ b'i'
    ∷ b's'
    ∷ b't'
    ∷ b':'
    ∷ decimal id

abbrev pub all_online_user : Text
all_online_user =
    b'a' ∷ b'x' ∷ b'i' ∷ b's' ∷ b':' ∷ b'o' ∷ b'n' ∷ b'l' ∷ b'i' ∷ b'n' ∷ b'e' ∷ b'_' ∷ b'u' ∷ b's'
    ∷ b'e' ∷ b'r' ∷ []

abbrev pub kafka_topic_offset : Text → Text
kafka_topic_offset s =
    b'a' ∷ b'x' ∷ b'i' ∷ b's' ∷ b':' ∷ b'k' ∷ b'a' ∷ b'f' ∷ b'k' ∷ b'a' ∷ b'_' ∷ b't' ∷ b'o' ∷ b'p'
    ∷ b'i' ∷ b'c' ∷ b'_' ∷ b'o' ∷ b'f' ∷ b'f' ∷ b's' ∷ b'e' ∷ b't' ∷ b':' ∷ s

abbrev pub status_msg_queue : Text
status_msg_queue =
    b'a' ∷ b'x' ∷ b'i' ∷ b's' ∷ b':' ∷ b's' ∷ b't' ∷ b'a' ∷ b't' ∷ b'u' ∷ b's' ∷ b'_' ∷ b'm' ∷ b's'
    ∷ b'g' ∷ b'_' ∷ b'q' ∷ b'u' ∷ b'e' ∷ b'u' ∷ b'e' ∷ []

abbrev pub redis_lock : Text → Text
redis_lock s =
    b'a' ∷ b'x' ∷ b'i' ∷ b's' ∷ b':' ∷ b'r' ∷ b'e' ∷ b'd' ∷ b'i' ∷ b's' ∷ b'_' ∷ b'l' ∷ b'o' ∷ b'c'
    ∷ b'k' ∷ b':' ∷ s

abbrev pub user_letter_box : ℕ → Text
user_letter_box id =
    b'a'
    ∷ b'x'
    ∷ b'i'
    ∷ b's'
    ∷ b'_'
    ∷ b'u'
    ∷ b's'
    ∷ b'e'
    ∷ b'r'
    ∷ b'_'
    ∷ b'l'
    ∷ b'e'
    ∷ b't'
    ∷ b't'
    ∷ b'e'
    ∷ b'r'
    ∷ b'_'
    ∷ b'b'
    ∷ b'o'
    ∷ b'x'
    ∷ b':'
    ∷ decimal id

abbrev pub group_letter_box : ℕ → Text
group_letter_box id =
    b'a'
    ∷ b'x'
    ∷ b'i'
    ∷ b's'
    ∷ b'_'
    ∷ b'g'
    ∷ b'r'
    ∷ b'o'
    ∷ b'u'
    ∷ b'p'
    ∷ b'_'
    ∷ b'l'
    ∷ b'e'
    ∷ b't'
    ∷ b't'
    ∷ b'e'
    ∷ b'r'
    ∷ b'_'
    ∷ b'b'
    ∷ b'o'
    ∷ b'x'
    ∷ b':'
    ∷ decimal id

abbrev pub persistent_lock : Text → Text
persistent_lock s =
    b'a' ∷ b'x' ∷ b'i' ∷ b's' ∷ b'_' ∷ b'p' ∷ b'e' ∷ b'r' ∷ b's' ∷ b'i' ∷ b's' ∷ b't' ∷ b'e' ∷ b'n'
    ∷ b't' ∷ b'_' ∷ b'l' ∷ b'o' ∷ b'c' ∷ b'k' ∷ b':' ∷ s
