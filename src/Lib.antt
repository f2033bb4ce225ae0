-- ===== src/Lib.antt =====
-- The server of a chat program, written in Go: a layer of web sockets (connect/) that holds the
-- clients' connections, a layer of logic (logic/) that keeps users, sessions and presence in redis and
-- a database, and a task layer that carries messages from the queues to the connect servers. A client
-- connects to a connect server, which asks logic/ to check its token and to mark it online, and puts
-- the connection into a bucket and into the lists of its groups; a message then reaches the buckets or
-- the connection of a user through the handlers of connect/rpc.go. The servers find each other through
-- etcd, and every redis key belongs to the server that a ring of hashes gives for it.
--
-- What models which part:
--   Connect/Channel.antt: connect/socket.go, a connection and its two bounded buffers.
--   Connect/GroupNode.antt: connect/group_node.go, the linked list of a group's members, over a heap of
--     connections; put, delete_channel and the two loops are GroupNode.Put, DeleteChannel, PushGroupMsg
--     and PushGroupStatusMsg. GroupNode/Chain.antt says which list of addresses a linked list stands for.
--   Connect/Bucket.antt: connect/bucket.go. put_channel and delete_chanel are PutChannel and
--     DeleteChanel, broadcast_room is BroadcastRoom, push_to_group is the round of a worker.
--     Bucket/Online.antt has the abstract view, the online members of each group.
--   Connect/Server.antt: connect/server.go, the buckets and the choice of a user's bucket.
--   Connect/Rpc.antt: connect/rpc.go, the six calls from the task layer.
--   Ring.antt: utils/consistent_hash.go, HashBalance with Add and Get.
--   Discovery.antt: etcd/etcd_discovery.go, SetServiceList, DelServiceList and the two halves of
--     GetServiceByServerId; Discovery/Key.antt takes the server id out of a key.
--   Common/Param.antt, Common/Keys.antt: common/param.go and the keys of common/redis.go.
--   Common/Redis.antt: common/redis.go, each function that sends a command. The client library is the
--     record Client; Redis/Effects.antt and Redis/Strings.antt state what redis documents of the
--     commands, as hypotheses, and Redis/Tests.antt has a server in memory for which they hold.
--     Redis/Cached.antt is GetSet, a read through the cache.
--   Logic/Data.antt: the records of users and groups, and the interfaces of db/curd.go and bcrypt.
--   Logic/Presence.antt: logic/publish.go, and Connect, DisConnect, AddGroup, PushRoomCount and
--     PushRoomInfo of logic/rpc.go. Logic/Counting.antt has the invariant of the groups' counts.
--   Logic/Session.antt: Register, Login, LoginOut, GetUserInfoByAccessToken, GetUserInfoByUserid,
--     UpdatePassword, CreateGroup and AddFriend of logic/rpc.go. Logic/Tokens.antt and
--     Logic/Registering.antt prove what they do to the sessions.
--   Logic/LetterBox.antt: Push and PushRoom of logic/rpc.go and Push of logic/publish.go.
--   Common/Kafka.antt: common/kafka.go, the table of producers and TopicProduce; the calls of the kafka
--     client are the record KafkaClient, and Kafka/Routed.antt states what kafka documents of them.
--   Common/Lock.antt: common/redis_lock.go. What the two scripts do to a server is the record Scripts, and
--     Lock/Freed.antt states what redis documents of it.
--   Connect/Letters.antt: the end of a round of writePump of connect/server_ws.go, from the commit of the
--     offset to the letter box: hand_over and keep_msg. JSON is the record Codec.
--   Connect/Pump.antt: the loop of writePump over the events that it selects, saveChatDataToDb, and
--     DealWebSocketResp of connect/utils.go. What the web socket answers comes with an event. A status
--     message is written by a goroutine of its own, whose write begins and ends by events between the steps of
--     the loop; two writes at the same time end the process, as the library panics when it notices them.
--   Connect/ReadPump.antt: readPump of connect/server_ws.go over the events that the web socket gives, and the
--     interface Operator of connect/operator.go, whose calls may return an error or panic. default_operator
--     fills it with the calls of connect/connect.go: GetServiceByServerId, and then the logic layer.
--   Db.antt: db/curd.go and the records of db/model.go. The calls of gorm are the record Gorm; Db/Rows.antt
--     states what a query gives. `curd` fills the interface that the logic layer takes.
--   Task.antt: task/push.go, to which connect servers a message goes.
--   Task/Queue.antt: updateOnlineObj and startTopic of task/kafka_queue.go, which topics are listened to.
--
-- State is passed explicitly: a function takes the state and returns the new one, an error or a fault
-- of the run time. A pointer is a number with 0 for nil, a string the list of its bytes, an identifier a
-- natural number; uint64 counters wrap at 2 ^ 64. What runs under one lock is one step. Three functions give
-- their lock up on the way and are a definition for each part: GetServiceByServerId (pick, advance),
-- getProducerConn (find_conn, found_or_dialled) and the watcher of kafka connections (find_unused,
-- remove_unused); Discovery/Race.antt and Kafka/Race.antt put other steps between the parts, and the functions
-- as a whole stand for a run with nothing between them. DeleteChannel of connect/group_node.go takes only the
-- read lock; what overlapping removals do is not modelled.
--
-- Bounds and fuel: the loops over a group's list take the rounds as an argument, and one round more
-- than the list is long is enough. The search in the ring has as many rounds as keys, and the digits of a
-- number as many as its value; both shrink in each round. The loops that wait for a lock take a number of
-- attempts, and answer `waiting` when it is used up; one attempt is enough for a lock that is free.
--
-- What is not modelled: the readers of the kafka topics and the redis queue of task/, the http
-- handlers of api/, configuration, logging, start-up, the generated code of proto/, and
-- utils/cityhash.go, a copy of Google's hash, which is a parameter. Times, expiry and the texts of
-- errors are left out.
pub mod Prelude
pub mod Common
pub mod Connect
pub mod Ring
pub mod Discovery
pub mod Logic
pub mod Db
pub mod Task
