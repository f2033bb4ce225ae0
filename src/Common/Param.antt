-- ===== src/Common/Param.antt =====
-- common/param.go: the operation codes of the messages.
use axis_chat_server.Prelude.{ℕ}

abbrev pub op_friend_msg_send : ℕ
op_friend_msg_send = 0

abbrev pub op_group_msg_send : ℕ
op_group_msg_send = 1

abbrev pub op_group_oline_user_count_send : ℕ
op_group_oline_user_count_send = 3

abbrev pub op_group_info_send : ℕ
op_group_info_send = 4

abbrev pub op_friend_online_send : ℕ
op_friend_online_send = 5

abbrev pub op_friend_off_online_send : ℕ
op_friend_off_online_send = 6
