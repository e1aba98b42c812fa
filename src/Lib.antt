-- ===== src/Lib.antt =====
-- A model of vangers-srv, the multiplayer server of the game Vangers, and what is proved of it.
--
-- The server keeps games; a game has players, each on a slot from 1 to 30 (its bind id), worlds, and a
-- table of objects, the vanjects, which the players create, update, hand over and delete. A client's
-- packet goes to the handler of its action, which looks up the client's game, checks the request,
-- changes the game and sends packets on to the other players of the world or of the game.
--
--   Base        shared names, bytes, maps, results, and Exec: code that reads and writes a state and
--               stops early with an error or a panic; Base/Atomic says which code leaves the state alone
--   Protocol    packets and actions (vangers-srv/src/protocol.rs)
--   Vanject     objects and their ids (vangers-srv/src/vanject.rs)
--   Player      players, their binds, names and bodies (vangers-srv/src/player/*.rs, game/world.rs)
--   Game        games, their slots and configuration (vangers-srv/src/game/*.rs)
--   Server      the server's state, the search for a game, the notifications
--               (vangers-srv/src/server/{server,games}.rs)
--   Server/Callback   the handlers, each a function of the client and the packet on the server's state
--               (vangers-srv/src/server/callback/*.rs); OnUpdate is the dispatch of a packet (mod.rs), and
--               Running what the main loop does on each event (server.rs)
--   Incoming    what is read from a client: the loop that cuts packets out of the read buffer, the
--               handshake, and what the server hears (vangers-srv/src/client.rs)
--   Outgoing    what waits to be written to a client, and the writer (vangers-srv/src/client.rs)
--   Tests       the theorems at concrete states
--
-- How the model stands to the code:
--   * A number of w bits is its bit pattern, a natural number below 2 ^ w; a signed shift is written out
--     (Vanject/Ids). A size that does not fit an i16, a slice out of range and an unwrap of nothing are
--     the outcome `panic`, which keeps what was written before it.
--   * A HashMap is an association list whose keys stand once. Where the code walks one, the model walks
--     the list; Rust leaves that order open.
--   * `get_mut_game_by_clientid` lends a game: `in_game` runs code on the first game with a player of the
--     client and puts the game back where it was.
--   * Sending a packet appends it to `sent` with its receiver and its channel, the reliable queue or the
--     one that keeps only the newest update of an object. Outgoing models the queues of one client on
--     their own: a send is an operation, a packet that is written or a spawned send that lands a step.
--   * Each handler is the composition of its checks, which only read (`approve`, `decide`, `leaver`), of
--     its writes to the game, and of its notifications, in the order of the code.
--   * The clock is a part of the state: `now` is the age of the server and `unix` the time of the world,
--     in seconds. Running lets both change between events.
--   * The loop over the read buffer runs on fuel, as many rounds as there are bytes and one: each round
--     takes a packet of one byte at least, or the loop stays at a packet of no bytes for ever. The digits
--     of a number have the fuel 20, enough below 10 ^ 20. All other loops walk a list or a range.
--   * A float is its bit pattern; ratings are compared by sign and magnitude.
--
-- Not modelled: log records and what only they read, the counters of a client's traffic, sockets, tasks
-- and the shutdown by a signal, the text of errors, statistics records that no code uses, the command
-- line.
pub mod Base
pub mod Protocol
pub mod Vanject
pub mod Player
pub mod Game
pub mod Server
pub mod Outgoing
pub mod Incoming
pub mod Tests
