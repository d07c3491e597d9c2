-- ===== src/Lib.antt =====
-- A model of livechat-server, a chat server in Go: a line-based chat over TCP (internal/chat), and a
-- web chat with rooms and direct messages (internal/http for requests, internal/ws for sockets, both
-- over internal/store).
--
-- Parts, and the files that model them:
--   internal/chat/util.go     Chat/Util: room keys, the two sanitizers, command lines
--   internal/chat/config.go   Chat/Config: the configuration and its defaults
--   internal/chat/room.go     Chat/Room: a room's members, topic and history
--   internal/chat/client.go   Chat/Client and Chat/Session: a session's link, and its loops as events;
--                             Chat/Loops: the same loops as goroutines that take turns
--   internal/chat/server.go   Chat/Registry (what the mutex guards, and the critical sections),
--                             Chat/Server (sending, joining, the end of a session), Chat/Commands
--                             (every command, from handleInput down); Chat/Session/Listening:
--                             ListenAndServe
--   internal/ws/messages.go   Ws/Messages: what a connection receives and sends
--   internal/ws/hub.go        Ws/Sets and Ws/Hub: the tables of connections, the queue, presence;
--                             Http/Sockets: ServeWS
--   internal/ws/conn.go       Ws/Conn (the handlers), Ws/Histories (the rounds of the loops),
--                             Ws/Database (the handlers over the tables of the store)
--   internal/store            Store/Models, Store/Users, Store/Rooms, Store/Messages; Store/Queries has
--                             what is used of SQL, Store/Rows the tables of db/migrations/001_init.sql
--   internal/auth, internal/http/middleware   Http/Token: tokens, and Require
--   internal/http/handlers    Http/Types (requests and responses), Http/Users, Http/Rooms,
--                             Http/Messages, Http/Uploads
--   internal/http/router.go   Http/Router: the routes and what stands before them; Http/Router/Files and
--                             Http/Router/Access: all of NewRouter
--   internal/config           Config
--   cmd/server/main.go        System: all of it put together; System/Main: main, run after run
-- Base holds shared names, lists and maps; Strings what is used of Go's strings, unicode, strconv and
-- sort; Tests runs the model.
--
-- A string is the list of its code points, so input is taken to be valid UTF-8; lengths in bytes are
-- those of the encoding. The tables of package unicode are the record Strings.Unicode, with the few
-- laws that the program relies on; Strings.Ascii meets them. A Go map with string keys is an
-- association list, in whose order nothing is sent or shown. Clients and rooms are objects on a heap:
-- the maps of the server hold addresses, as the Go maps hold pointers. The struct Client is split:
-- Client has the fields behind its mutex, Link its channels and its connection. A handler runs to its
-- end before the next event; where the lock is released in between, the critical sections are
-- functions of their own (Chat/Registry), and Chat/Session/Ghosts interleaves two of them. Chat/Loops
-- takes one session apart: there an access of a channel, of `once` or of the connection is a step of
-- its own, but that writeLoop takes a message and writes it in one step, as readLoop scans a line and
-- calls touch; the three loops and the goroutines in Send take turns in any order, and what a line
-- makes the server do is left open, so that every goroutine may send anything at any time;
-- Chat/Session/Links says how the server's events are runs of it. Its steps need no fuel: a run has as
-- many as are asked for. In Chat/Session/Listening what Accept answers is given, and in System/Main
-- what the environment, the pool and http.Server do. The sequence number is an uint64 and wraps
-- around, as does the size limit of an upload; the other counters are natural numbers. Loops recur on
-- the list that they go through; dec_loop in Strings/Decimal takes the number itself as fuel, which
-- value-dec shows to be enough.
--
-- In Ws a UUID is the list of its bytes, uuid.Parse is a parameter, an instant is an argument, and the
-- store is an interface of the calls that the handlers make, with any database state; Ws/Database
-- fills it with the tables, where two queries with no statement between them have the same outcome. A
-- connection's buffer takes 64 events, as in the source. The hub's queue stands for the channel and
-- the senders that wait while it holds 128. Rounds of the three loops come in any order.
--
-- In Store a table is the list of its rows in the order of their insertion; an insert is refused where
-- a key is taken or a reference has no row. Every call of a method takes what the environment gives to
-- it (Store.Queries.Call): the new id, the database's clock, whether the statement reaches the
-- database, and whether its answer comes back, so that a change may be made and reported as an error;
-- and, since a query with no order may find any of several rows, which one GetUserByEmail and
-- GetUserByUsername get. EnsureDefaultRoom takes the oldest room of the name. PostgreSQL's lower,
-- ilike and collation are the record Dialect, of which nothing is assumed.
--
-- In Http a handler is a function from a request and the tables to the tables and a response; the
-- calls of the store that a request makes are numbered, and its queries run on one state of the
-- tables: between the two of RoomHistory nobody leaves the room. JSON, RFC 3339, UUIDs, signed tokens
-- and bcrypt are the record Packages; Http.Users.Registered.AreFaithful says what of their
-- documentation the round trips use, and Tests/Packages has packages that are so. What the file system
-- and the form give to an upload is the record Upload. chi's matching of a path with a pattern, the
-- CORS handler and the file server under /uploads/ are parameters.
--
-- Not modelled: logging, the clocks of the write deadline and of the idle timer (a write may fail and
-- the timer may expire at any time); what the CORS handler writes into a response; opening and closing
-- the database's pool; in cmd/server/main.go, of which main.go is a copy, the signals, the timeouts of
-- the HTTP server and its shutdown; and the web client in web/.
pub mod Base
pub mod Strings
pub mod Chat
pub mod Store
pub mod Http
pub mod Config
pub mod Ws
pub mod System
pub mod Tests
