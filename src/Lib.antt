-- ===== src/Lib.antt =====
-- des-aodv: a daemon for the routing protocol AODV in a wireless mesh, on libdessert.
--
-- The daemon keeps a database of tables, which its handlers of messages and its periodic tasks call.
-- An entry of most tables lives until a time that a timeslot keeps; when the time has passed the
-- timeslot calls back into the table, which frees the entry. The callbacks of the pipeline take in
-- route requests, replies and errors (RREQs, RREPs and RERRs), HELLOs and data packets, and change the
-- routes; a search for a route is a series of RREQs, which the schedule table repeats. A definition
-- has the name of the C function that it models.
--
-- Files, by the path of the source:
-- - Dessert: the functions of libdessert on times, as a parameter. `Ordered` is what its
--   documentation says of the comparison; the theorems on times assume it, and Clock has a clock
--   for which it holds.
-- - Common, Table: lists, options, C's comparisons and signed numbers; uthash's tables as lists in the
--   order of insertion. Table.Safety: no timeslot holds the address of an entry that is gone.
-- - Config: constants of src/config.h, and the values with which the settings start.
-- - Helper: src/helper.c and src/helper.h. Helper.Serial: the order of serial numbers.
-- - Timeslot: src/database/timeslot.c. The linked list from the tail to the head is a list, the
--   earliest time first; the hash beside it holds the same elements. Timeslot.Order, .Expiry and
--   .Refine relate it to a map from objects to times, .Counting counts the elements alive at a time.
-- - RateLog: src/database/rreq_log/rreq_log.c and src/database/rerr_log/rerr_log.c, one model for both.
-- - DataSeq: src/database/data_seq/ds.c.
-- - ScheduleTable: src/database/schedule_table/aodv_st.c.
-- - NeighborTable: src/database/neighbor_table/nt.c. Its callback also writes to the schedule table.
-- - RoutingTable: src/database/routing_table/aodv_rt.c.
-- - PacketBuffer: src/database/packet_buffer/packet_buffer.c. PacketBuffer.Keys: no host is twice in the
--   table; PacketBuffer.Push: what a pushed packet adds.
-- - PdrTracker: src/database/pdr_tracker/pdr.c.
-- - Metric: src/pipeline/aodv_metric.c.
-- - Gossip: src/pipeline/aodv_gossip.c. Gossip.HoldQueue: the RREQs that are held back; Gossip.Unheld: an
--   empty queue of them.
-- - Message: src/pipeline/aodv_pipeline.h, the messages, and as parameters the settings and what comes
--   from outside while a handler runs.
-- - Database: src/database/aodv_database.c, all tables in one state; Database.Routes and
--   Database.Neighbors have the calls of some of them, Database.Cleanup what a cleanup keeps.
-- - Daemon: the state of the daemon and its steps, in a monad of state, messages sent and failure.
--   Daemon.Keeps: that a step keeps an invariant; Daemon.Runs: what a step does where it ends.
-- - RreqSeries: src/pipeline/aodv_pipeline.c, the series of RREQs. RreqSeries.Life: what one RREQ
--   does to its series; RreqSeries.Search: all RREQs of a series; RreqSeries.Started: a series that a
--   packet starts.
-- - RouteError: `aodv_create_rerr` of src/pipeline/aodv_periodic.c.
-- - Forward: src/pipeline/aodv_forward.c. Forward.Buffer: the packets that waited for a route;
--   Forward.Once: packets that are known; Forward.Unrouted: a packet that has no route yet, from the
--   host to its way over the one that an answer brings.
-- - Handlers: the callbacks of src/pipeline/aodv_pipeline.c, with a module each for RREQs, RREPs and
--   RERRs.
-- - Periodic: src/pipeline/aodv_periodic.c.
-- - Cli: src/cli/aodv_cli.c, the commands that change settings or state. Cli.Sizes: sizes, intervals
--   and gossip types; Cli.Show and Cli.ShowTables: the commands that print; Cli.Names: the names of
--   metrics and gossip types. The parsers of libc and libdessert are a record `Reader`.
-- - Report: the reports of src/database/timeslot.c, src/database/routing_table/aodv_rt.c and
--   src/database/pdr_tracker/pdr.c, which print tables into buffers of fixed sizes. `snprintf` is a
--   parameter `Printf`, and `Documented` is what its documentation says of the lengths that it writes.
-- - Pipeline: src/aodv.c, the start of the daemon, with the settings, the callbacks and the commands
--   that `main` registers. Pipeline.Dispatch: how a message goes through the callbacks. The order in
--   which libdessert calls them is a parameter `Runner`, and `InOrder` is what its documentation says:
--   the least priority first, wherever it is registered, until one drops the message. Pipeline.Options: the options of the command line.
-- - System: settings and state together, and all that can happen to them: `Moves` has a case for a
--   callback, for a packet of this host, for each periodic task and for a command, and `Reachable` what
--   comes after the start by such moves in any order. System.WellFormed: the invariant;
--   System.Buffer, .Links, .Series, .Packets, .Handlers, .Rreq, .Tasks and .Commands: that each operation
--   keeps it; System.Kept: what a command has to keep; System.Soundness: all of them together;
--   System.Reached: what operations do in the states that the daemon reaches.
-- The module Examples of a component holds its tests.
--
-- How C is read. State that is global in C is passed and returned. An unsigned number of w bits is a
-- natural number with `% 2 ^ w` written out where it can wrap; a signed one is an integer. A pointer
-- to an entry is its address, a number. What comes from outside is an argument: the address that a
-- `malloc` returns (`none` for NULL) or its success, the clock of `gettimeofday`, a random draw, a
-- signal strength. A division by zero and a write through a null pointer are results of their own.
-- A handler or a task is a step: it runs to its end before the next one. Most loops are over lists.
-- Three have a bound on their rounds as their first argument: `send_loop` gets one round more than
-- there are packets, `rerr_loop` one for each destination, as each round takes at least one away; and
-- `send_rerrs`, which may not end, says in its result whether it ended.
--
-- Not modelled: locks (a call of the database is atomic, and so is a handler, so that two handlers
-- never run at once), log and debug messages, what the commands print beside values and tables, the
-- dummy payload of RREQs, the release of the memory of a timeslot, the
-- probability of gossip, which is a floating point number, with its two commands, and the opening and
-- reading of the file of configuration. Code under the preprocessor symbol ANDROID is left out.
pub mod Common
pub mod Dessert
pub mod Helper
pub mod Timeslot
pub mod RateLog
pub mod Table
pub mod Config
pub mod DataSeq
pub mod ScheduleTable
pub mod NeighborTable
pub mod RoutingTable
pub mod PacketBuffer
pub mod PdrTracker
pub mod Metric
pub mod Gossip
pub mod Clock
pub mod Message
pub mod Database
pub mod Daemon
pub mod RreqSeries
pub mod RouteError
pub mod Forward
pub mod Handlers
pub mod Periodic
pub mod Cli
pub mod Report
pub mod Pipeline
pub mod System
