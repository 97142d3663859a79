-- ===== src/Lib.antt =====
-- The bridge between the game server and the multiworld, and the parts around it, modelled from their
-- Go sources.
--
-- The plugin on the game server reports what happened in a mission; the bridge turns a report into a
-- check of the multiworld, keeps it in a file, and sends it up; items that come down are turned into
-- grants, which the plugin polls for and acknowledges. The parts, and the file that models each:
--
-- - gamedata/: the tables, the id scheme and the resolvers of reports. Gamedata.Kinds holds the
--   enumerations, Gamedata.Tables the rows, Gamedata.Ids the ids and names, Gamedata.Locations
--   `buildLocations`, `buildMilestones`, `LocationByID`, `LocationByObjective` and
--   `LocationByWaveKill`, Gamedata.Items `buildItems`, Gamedata.Validate `validateMissions`, and
--   Gamedata.Game the lists as the program builds them once.
-- - bridge/internal/state/: the store. State.Store holds its methods, State.Bind `Open` and `BindSeed`,
--   State.Grants `grantsFrom` and `unlocksFrom`, State.Snapshot the record on disk and the names of
--   its files, State.Disk the reads, writes and renames of them.
-- - bridge/internal/deathlink/feed.go and bridge/internal/chat/log.go: the two rings that the plugin
--   reads, in Feed.DeathLink and Feed.Chat.
-- - bridge/internal/httpapi/server.go: the reports, in Server.Objective and Server.Tally, and what the
--   operator is shown, in Server.Observe, the missions that are told, in Server.Missions, and the requests that
--   wait or pass something on, in Server.Poll.
-- - bridge/internal/apclient/: what may be said and how often, in Session.Say and Session.Pace, the
--   seed's goal, in Session.Goal, the names behind ids, in Session.Names, and the handlers of the
--   websocket's messages with `unplayable` and `Die`, in Session.Client.
-- - gamedata/community.go and gamedata/server_mods.go: what the manifest says of a mission, in
--   Gamedata.Community; gamedata/availability/: whether a server can play it, in Availability.
-- - fakeroom/fakeroom.go: the multiworld of one for play-tests. Fakeroom.Start holds what a run starts
--   with, Fakeroom.Order `unlockOrder`, Fakeroom.Tickets `takeNextTicket`, Fakeroom.Missions
--   `defaultMissions`, Fakeroom.Room `reward`, `gift` and `unlockNextMission`, Fakeroom.Reply the chat,
--   Fakeroom.Accepted the seed that is announced, and Fakeroom.Step the room with the bridge's store;
--   fakeroom/modifiers.go: `DrawMissionModifiers`, in Fakeroom.Modifiers.
-- - launcher/internal/rcon/rcon.go: the RCON client, over bytes, in Rcon.
-- - launcher/internal/settings/: how a value is spelled in .env, in Settings.Codec, and read back, in
--   Settings.ReadBack; launcher/internal/runtime/supervisor.go: a process's output as lines, in Lines.
--
-- A method of the bridge holds its lock throughout, so it is a function from the state before to the state after and
-- the answer. What the surroundings do is an argument: the clock, and whether a write of the state file
-- succeeds, fails and leaves the file, or fails once the new file is in place. The calls that are
-- made while the store holds one seed's run are a path of the step relation of State.Store.Invariant,
-- and State.Bind.Calls adds `BindSeed` to them. A Go panic is a value (`none` in the builders,
-- `panicked` and `aborted` in the store and the server). A closed channel is counted by `generation`; a
-- poll that waits takes the list of what ends its waits, each change with the store that is read then.
--
-- The rows of the missions, maps and weapon buffs are an argument, so what is shown holds of every table
-- that `validateMissions` accepts. Numbers are natural where the source checks or uses them as such, and
-- signed where a negative one has a meaning; ids fit 64 bits with room, so no wrap-around is written.
-- `cut_paragraph` runs on fuel, the length of the paragraph, which each round shortens. The token bucket
-- counts in nanoseconds what the source holds in floating point.
--
-- The handlers of the session and the room's draws take as arguments whether a write to the socket goes
-- through, what `math/rand` picks, and the functions of `strings` and `sort` that they call; the codecs
-- of settings take those of `strings` and `strconv`. `Exec` of the RCON client and `authenticate` run
-- for the 128 packets of the source. The loop of `sinkWriter.Write` runs on the length of its buffer,
-- which each round shortens. The test room writes a message after it has released its lock, so
-- Fakeroom.Step lists the messages in the order of their indices and takes the order in which they are
-- written as another list.
--
-- Not modelled: JSON, which is taken to read back what it wrote; HTTP routing and the polls for chat
-- and deaths; dialling, the two loops of a session and its pings; the rest of the launcher, the plugin,
-- the generators of tables and the deployment.
pub mod Availability
pub mod Fakeroom
pub mod Rcon
pub mod Settings
pub mod Lines
pub mod Prelude
pub mod Gamedata
pub mod State
pub mod Feed
pub mod Server
pub mod Session
pub mod Tests
