-- ===== src/Lib.antt =====
-- Testhub: a server that runs test specifications. Tests are submitted, wait in a queue, are
-- executed by worker threads and are kept in a history; events tell what happens.
--
-- The parts and where they are modelled:
-- * Model (src/model/types.h): the states and priorities with their names, requests, results.
-- * StringUtil (src/util/string_util.h): the string helpers, over lists of bytes.
-- * TagFilter (src/engine/tag_filter.h): parse, all and matches. The parser calls itself on fuel,
--   four units for each byte and four more, which is enough for every text.
-- * Spec (src/spec/spec.h): tables, steps, scenarios and specifications. Spec.Parser
--   (src/spec/spec_parser.cpp) reads the rows of tables and the text of steps, and expands concepts
--   17 levels deep, as the source does.
-- * Queue (src/engine/test_queue.h): TestQueue. A section under the mutex is a function from the
--   state to the next one; the events that are published stand in the result.
-- * EventBus (src/event/event_bus.h, event_bus.cpp): subscribe, publish, recentEvents, and the
--   dispatcher as steps that take an event and call its handlers.
-- * Trends (src/engine/trends.h): groupTrends, compareScenarios and summarizeDiffs.
-- * Engine (src/engine/execution_engine.h, execution_engine.cpp, result_store.cpp): the state, with
--   Submit (submit, rerun), Cancel (cancel, and how workerLoop and updateStatus write a record),
--   History (trimHistory, remove, clearHistory), Finish (loadHistory, and how execute begins and
--   ends), Queries (list, count, stats, trendRuns, compareTests) and Run: executeStep in Run.Steps,
--   executeScenario in Run.Scenarios, executeSpec and the final state in Run.Specs, executeSequential
--   and the run of a test on one stream in Run.Suite. Worker is execute from the record to its end.
--   The engine holds the queue and calls it. Engine.Invariant.Sections has the sections under the
--   record lock as a step relation.
-- * Json (src/util/json.h): values; Json.Print (dump), Json.Parse (parse, tryParse) and Json.Access.
-- * Cron (src/util/cron.h): parse, matches and nextAfter. A bit mask is a function to Bool, read
--   below 64.
-- * Scheduler (src/engine/scheduler.h, scheduler.cpp): the state, list and stats; Calls (tick,
--   fireNow), Store (create, update, remove) and Load (loadAll). It parses with Cron and hands its
--   requests to the callbacks, which testhub.cpp sets to the engine's submit and to a test of the
--   record's state.
-- * Base64 (src/util/base64.h): encode and decode.
-- * Server (src/server/http_server.h, http_server.cpp, auth.h): requests and responses; Server.Parse
--   (urlDecode, parseRequestHead), Server.Routes (addRoute, matchRoute), Server.Static (serveStatic),
--   Server.Dispatch (dispatch), Server.Write (serialize) and Server.Auth (authorize, which
--   testhub.cpp sets as the filter).
-- Base has the shared types and lemmas, Examples the runs on fixed inputs.
--
-- A time point or a duration is a number, and the clock an argument. The text of the local time, the
-- search for specification files and the success of a write are parameters. A call that takes the
-- record lock several times is a sequence of sections. The search for a free id runs on fuel, since
-- it need not end; the loop of trimHistory runs on the length of the order, which each round
-- shortens; the attempts of a step run on two more than the retries. In a run, the cancel flag, the
-- deadline, the runner's answers and the files are the parameter World, which is asked anew at each
-- reading. A progress is a fraction.
--
-- The JSON parser calls itself on fuel, three units for each byte and two more, which is enough for
-- every text. A double is its 64 bits, and the record Floats says how the C library prints, reads and
-- truncates one. nextAfter tries 366 * 24 * 60 minutes; gmtime is a parameter. generateId, which need
-- not end, runs on fuel. The callbacks of the scheduler are functions on a state of the world that is
-- threaded through the calls. A handler of a route is a function on the state of the world that may
-- throw; the file system is the record FileSystem, and double_of turns an int into a double.
--
-- Not modelled: sockets, processes, files, logging, and what PROJECT.json lists as planned.
pub mod Base
pub mod Base64
pub mod Cron
pub mod Engine
pub mod EventBus
pub mod Examples
pub mod Json
pub mod Model
pub mod Queue
pub mod Scheduler
pub mod Server
pub mod Spec
pub mod StringUtil
pub mod TagFilter
pub mod Trends
