-- ===== src/Lib.antt =====
-- synk: a library that keeps objects in a database and tells the browsers that have subscribed to
-- them what changes.
--
-- A program changes an object through its setters, which write to a pending diff, and hands it to
-- `Create`, `Modify` or `Delete` of MongoSynk (MongoSynk.go). These resolve the object, store it in
-- MongoDB, and publish a message in JSON on the Redis channel that is named by the object's
-- subscription key. A client (Client.go) is a browser's connection: Redis hands its `Receive` what
-- is published on the channels that it has subscribed to, and `Receive` puts that into the channel
-- to the web socket. When the browser asks for subscriptions, `updateSubscription` changes them,
-- loads the objects and writes them to the web socket. A client has two goroutines: one reads from
-- the web socket, the other (`startMainLoop`) takes from both channels, writes and handles. A
-- request (Handler.go) becomes a client, which is in the pool (ClientPool.go) until it ends. A node
-- (Node.go) holds the connections and the constructors that the program registers.
--
-- Files, by the part of the program:
-- - Base: numbers, texts, association lists, positions in a text, numerals.
-- - Result: Go's errors, panics, and methods that change what their pointers reach.
-- - Wire.Json and Wire.Message: encoding/json for the values that are sent, and addMsg, modMsg and
--   remMsg of MongoSynk.go with their texts; Wire.Json.Escape, Wire.Json.Unique,
--   Wire.Message.Content and Wire.Message.Unique for proofs (texts determine values).
-- - Tag (Tag.go), Id (ID.go; Id.Shape for proofs), Object (Interfaces.go: the interface Object and
--   its laws).
-- - Service: MongoDB and Redis as MongoSynk uses them, a parameter with laws; Service.Memory shows
--   that the laws can hold.
-- - Mongo (MongoSynk.go), with Steps, Close (its method), Create, Notices, Modify, Success,
--   Delete and Load for proofs.
-- - Redis: a Redis server with documented commands, a parameter with laws; Redis.Memory shows that
--   they can hold.
-- - RedisSynk (RedisSynk.go and the scripts of RedisScripts.go), with Key, Commands, Store, Modify,
--   Delete, Script, Create and Trip for proofs, Load (RedisRequestObjects) and Methods (the methods
--   of RedisSynk): the other store for objects, which publishes messages of the same kinds as
--   MongoSynk.
-- - Client (Client.go, and the message types of Message.go), with Receive, Delivery and Subscribe.
-- - MainLoop (startMainLoop, startReadingFromWebSocket, Close and the calls of Receive in Client.go, as
--   steps of goroutines), with Order, Runs, Waits and Snapshot (what a browser is sent),
--   Close, After, Calls, Flush and Arrive (from Modify to the browser) for proofs.
-- - Pool (ClientPool.go) and Handler (ServeHTTP of Handler.go and the goroutine of the pool, as
--   steps), with Entries, Broadcast, Members, Safe, Tracked, Removal and Ends for proofs.
-- - Connect (newClient of Client.go).
-- - Settings (the variables and init of Interfaces.go), Node (Node.go; Node.Registered for proofs),
--   Pipe (Pipe.go; Pipe.Pump for proofs).
-- - Inbox (MessageFromBytes of Message.go, and startReadingFromWebSocket of Client.go).
-- - Replica: what the messages mean to a browser that keeps a copy of an object, by the comments at
--   their types in MongoSynk.go and at `V` in Tag.go: an abstract view that what the services are
--   sent and what clients are handed is set against. A browser's code is not in the repository: its
--   constructor and its update are a parameter, with a law. Replica.Mutator is the interface Mutator of
--   Interfaces.go, which Replica.Mongo and Replica.Redis fill; Replica.History is the life of an
--   object, as steps. For proofs: Accept, Delivered, Late (one message, one call), Copies, Mirrored,
--   Versions, Lagging, Snapshot (messages that are older than what was loaded), Stored (what MongoDB
--   holds), Loads, Found, Subscribe (from Load to the browser), Unique, Progress, and Human.
-- - Stest.Human and Stest.Orc (stest/char.go, stest/setters.go): objects with generated accessors
--   (Diff: the getters of the diffs, and String).
-- - Tests: concrete runs.
--
-- An object of the program is a value, and a method with a pointer receiver returns the value that
-- it leaves. The stores outside the process are a state that is passed on; a method returns or
-- panics, and what it wrote before a panic stays written. Log lines are left out. A string is the
-- list of its characters' numbers; a byte that belongs to no character of UTF-8 has a number from
-- 0x110000 on, which no character has, and json.Marshal writes U+FFFD for it. Versions are unsigned
-- 64 bit numbers. Loops are structural recursion, so no fuel is needed, but for numerals, which
-- recur on the order of the numbers. A client's channel holds 64 messages; a send to a full channel
-- is `none`, a goroutine that waits. Goroutines are interleaved: an event is one step of one of
-- them, a schedule is any list of events, and an event whose goroutine is elsewhere or has to wait
-- is `none`. The database and other processes change the world by events of their own.
--
-- The pool closes a client's channel only after the client's Close, so the main loop never finds it
-- closed, and `on_write` has no case for that. A send to a closed channel panics in the pool and is
-- left out of Receive.
--
-- Delivery is simple: the agents of pubsub, which are not in the repository, are taken to hand a
-- client each message that is published on a channel that it has subscribed to at that moment, once
-- and in the order of publishing, with nothing between the publishing and Receive (`deliver` of
-- Client.Delivery). Messages that are lost, late or out of order are outside. In Replica a call of
-- a Mutator is one step, with that delivery. A call that fails is no step. A browser is taken to
-- read a text as the message that it was made of; keys and IDs that are not UTF-8, which
-- json.Marshal changes, are outside there.
--
-- Not modelled: the steps between the writes of one call of Load's objects, and data races on the
-- map of subscriptions, which `Receive` reads while the main loop writes it; the goroutine that
-- closes a client's Loader; deadlines and the ticker, of which a ping can come at any time; the
-- settings of the web socket upgrader and of the pool of Redis connections; the commands that
-- redigo's pool opens and closes connections with; and what mgo, redigo, pubsub and
-- gorilla/websocket do beyond the laws that Service, Redis, Client.Subscribe and MainLoop.Order
-- state.
pub mod Base
pub mod Result
pub mod Wire
pub mod Tag
pub mod Id
pub mod Object
pub mod Service
pub mod Stest
pub mod Redis
pub mod Mongo
pub mod RedisSynk
pub mod Replica
pub mod Client
pub mod Inbox
pub mod MainLoop
pub mod Pool
pub mod Handler
pub mod Settings
pub mod Node
pub mod Pipe
pub mod Connect
pub mod Tests
