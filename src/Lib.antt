-- ===== src/Lib.antt =====
-- A model of ggs, a game server, and the theorems that hold of it.
--
-- Clients hold a TCP connection to an agent (app/agent). Packets are framed by internal/base/net.
-- A client logs in with a token of the login service (app/login), which also makes characters. The
-- agent picks a game node for the player (app/agent/internal/infra/router), connects to the player's
-- actor there and forwards packets both ways. An actor of the game (app/game) keeps its data in a
-- model (internal/infra/actor/model), marks what it changes, and has it written to MongoDB by a timer
-- (internal/infra/actor and its persist).
--
--   Net      internal/base/net/packet.go. Write is `write`, Frame the free functions ReadPacket and
--            WritePacket, Packet is PacketReadWriter, Crypt is PacketReadWriterWithCryptor.
--            Exchange is the exchange of keys in app/agent/internal/app/listen.go and client.go.
--   Player   internal/infra/actor/model/player/items.go: Items with Add, Sub, GetNum, GetItem.
--   Model    internal/infra/actor/model: Dirty is dirty.go, Modules is model.go.
--   Persist  internal/infra/actor/persist/persist.go: LoadModel, SaveModel, AsyncSaveModel. Load and
--            Save hold what they promise.
--   Actor    internal/infra/actor/actor.go and persist.go, the timer part of persist/persist.go, and
--            app/game/internal/handler/common/common.go. Pending and Start follow dirty data from one
--            event to the next, Stop is OnStop, Lost a change that overlaps a save.
--   Agent    app/agent/internal/agent.go, app/agent/internal/infra/agent/agent.go and hook_login.go,
--            app/agent/internal/app/actor.go: Place is the location of a player, Register is the
--            map of agents, Login is handleLoginReq, ReadLoop is readLoop, WriteLoop is
--            pendingPacketLoop, StopAll is StopAllAgents, Deliver is HandlePush, HandleResponse and
--            HandleDisconnect with ReceivePacket.
--   Router   app/agent/internal/infra/router/nodeselector.go, with its groups in Groups; Actors is
--            the routing of app/game/internal/app/actor.go, with internal/base/nodeutil.
--   Login    app/login/internal/handlers/character.go, with Enter, CharacterList and Create, which
--            has Limits and Outcome; Lease has many requests under the lock, in Guards, Limits
--            and Late; Small is an instance of the services; Auth is
--            app/login/internal/handlers/middleware/auth.go.
--   Game     app/game/internal/handler/player and app/game/internal/systems, with the wrappers of
--            internal/infra/actor/handler: the requests of a player, and what they answer; Dispatch has
--            the requests between servers, in Answers what becomes of them. Heartbeat
--            is the timer of internal/infra/actor/actors/player.go.
--   GameData internal/gdconf: the loading functions and their order, in Insert and Order; Tables is
--            Item.go, Item_ext.go and Global.go, Loaded the paging, Levels what loading leaves.
--   Client   app/client/internal/mode/client: sendReq and OnStreamMsg of client.go, with Response;
--            Command is cmd.go and exec of state.go, States the rest of state.go, Stream is
--            app/client/internal/net/stream.go.
--   App      the start and the stop of the agent, the game server, and, in Web, the login service and
--            the platform (app/*/internal/app), with the order of what they set up and close.
--   Http     internal/utils/ginutils and httputils, app/client/internal/mode/internal/utils: Created is
--            a client's call at the login service, Servers the handlers of servers.
--   Generate internal/infra/actor/protocol/tools/gen_register/main.go: Scan is the search for
--            messages, Names the names that are kept.
--   Lifecycle internal/infra/actor/lifecycle and internal/base/lifecycle: handlers of actors, in
--            Register the callbacks that an actor gets.
--   Mongo    Indexes is internal/infra/mongo/models/indexes.go, Consumers internal/infra/mongobd.
--   Prelude  what the others share: tests, lists, int64, decimal text, maps.
--
-- State is passed explicitly; an operation of the source is a function of the same name. A call
-- of code outside the repository (the driver of MongoDB, the actor framework, the codec, the
-- selector of nodes, the lock) is a parameter, and what is relied on of it is a named
-- hypothesis: IsWriter, IsCryptor, IsTimers, IsKeyPair, IsCollection, IsRegistry, PicksMembers,
-- IsServices, IsLock, IsCall, IsPlatform, IsActorRegistry. The exchange of keys relies on limits that
-- accept the encrypted session key (`fits` of Net.Exchange.Agree), and the loading of tables on a
-- collection that does not change meanwhile, but not on the order of its pages. Durations are
-- milliseconds. An int64 is an integer with its wrap-around in add64 and sub64; identifiers that are
-- only compared are the number of their bit pattern.
--
-- Fuel: the loop of `write` has one round for each byte and one to see the end, which is enough
-- since a call without an error takes a byte at least; the digits of a number have a round
-- each; the search for a priority has a round for each candidate and one to see the end; the
-- paging and the loop that reads a stream have the rounds that their caller gives, one for each
-- batch or packet and one more being enough. All other recursion is structural.
--
-- Not modelled: configuration, logging, generated protocol code, wrappers that pass a call on,
-- and the text of errors, since they are input and output or calls of libraries. The
-- two goroutines of an agent are not interleaved: an operation is one step, but for the stop of an
-- agent, where WriteLoop.Ends looks between its halves. What the callback of a finished operation
-- does is not modelled, only when it begins and ends. In the client, what arrives while a request
-- waits is an argument.
pub mod Prelude
pub mod Net
pub mod Player
pub mod Model
pub mod Persist
pub mod Actor
pub mod Router
pub mod Login
pub mod Agent
pub mod Client
pub mod Game
pub mod GameData
pub mod Generate
pub mod App
pub mod Http
pub mod Lifecycle
pub mod Mongo
