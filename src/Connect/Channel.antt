-- ===== src/Connect/Channel.antt =====
-- connect/socket.go: a client connection with its two bounded send buffers.
use axis_chat_server.Prelude.{
  ℕ, ◌≤◌, ◌≡◌, List, [], ◌∷◌, ◌++◌, arith, Text, length, length-append, ltb, if◌then◌else◌,
}

-- A pointer to a connection or to a group node. Go's memory is safe, so that every pointer but
-- `nil` leads to a value.
abbrev pub Ptr : Type 0
Ptr = ℕ

abbrev pub nil_ptr : Ptr
nil_ptr = 0

-- The fields that `json.Unmarshal` reads from a message's value: its `op`, its `groupId` (0 where
-- the JSON has none), and the bytes themselves.
pub record Payload : Type 0 where
  pub op : ℕ
  pub group_id : ℕ
  pub body : Text

-- kafka.Message, with the fields that this layer reads.
pub record Message : Type 0 where
  pub topic : Text
  pub partition : ℕ
  pub offset : ℕ
  pub value : Payload

-- A channel of Go's is the queue of what was sent and not yet received. `size` is the capacity
-- of both. `Conn` and `CnnTcp` are handles of the websocket library and are left out.
pub record Channel : Type 0 where
  pub size : ℕ
  pub broadcast_msg : List Message
  pub broadcast_status : List Payload
  pub userid : ℕ
  pub next : Ptr
  pub prev : Ptr
  pub group_nodes : List Ptr

unfoldable pub new_channel : ℕ → Channel
new_channel size = record {
  size = size;
  broadcast_msg = [];
  broadcast_status = [];
  userid = 0;
  next = nil_ptr;
  prev = nil_ptr;
  group_nodes = [];
}

-- A `select` with a `default`: a full buffer drops the message.
unfoldable pub push : Message → Channel → Channel
push msg ch =
    if ltb (length ch.broadcast_msg) ch.size
    then record ch { broadcast_msg = ch.broadcast_msg ++ msg ∷ [] }
    else ch

unfoldable pub push_status : Payload → Channel → Channel
push_status msg ch =
    if ltb (length ch.broadcast_status) ch.size
    then record ch { broadcast_status = ch.broadcast_status ++ msg ∷ [] }
    else ch

-- The buffers hold at most `size` messages.
pub record Fits (ch : Channel) : Type 0 where
  pub msgs : length ch.broadcast_msg ≤ ch.size
  pub statuses : length ch.broadcast_status ≤ ch.size

pub push-Fits : (msg : Message) (ch : Channel) → Fits ch → Fits (push msg ch)
unfolding push
push-Fits msg ch f = ground (arith, length-append ch.broadcast_msg (msg ∷ []))

pub push_status-Fits : (msg : Payload) (ch : Channel) → Fits ch → Fits (push_status msg ch)
unfolding push_status
push_status-Fits msg ch f = ground (arith, length-append ch.broadcast_status (msg ∷ []))

-- A push changes no link of the lists that the connection stands in.
pub next-push : (msg : Message) (ch : Channel) → (push msg ch).next ≡ ch.next
unfolding push
next-push msg ch = ground arith

pub next-push_status : (msg : Payload) (ch : Channel) → (push_status msg ch).next ≡ ch.next
unfolding push_status
next-push_status msg ch = ground arith

pub prev-push : (msg : Message) (ch : Channel) → (push msg ch).prev ≡ ch.prev
unfolding push
prev-push msg ch = ground arith

pub prev-push_status : (msg : Payload) (ch : Channel) → (push_status msg ch).prev ≡ ch.prev
unfolding push_status
prev-push_status msg ch = ground arith
