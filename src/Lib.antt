-- ===== src/Lib.antt =====
-- tkmcollector: the collector of the task monitor.
--
-- The collector (source/) is one event loop. A control client (source/ControlClient.cpp) sends
-- commands; the dispatcher (source/Dispatcher.cpp) passes them to the database
-- (source/SQLiteDatabase.cpp or source/PQDatabase.cpp, with the texts of source/Query.cpp) or to a
-- device that the device manager (source/DeviceManager.cpp) finds by its hash. A device
-- (source/MonitorDevice.cpp) connects to a monitor (source/Connection.cpp), asks it for a session,
-- and then asks for data on three update lanes; what the monitor sends comes back as requests of the
-- device, and the data goes to the database. Every handler answers its client by a SendStatus
-- request of the dispatcher. Dispatcher, database and devices each have a queue; the event loop
-- hands its requests to `requestHandler` one at a time, so that one handler is one step of the
-- model. The control tool (control/) is a second program with a queue of its own: it reads a command
-- line, connects to the collector, sends the command as an envelope, prints what comes back and
-- quits.
--
-- Files:
-- - Prelude: the libraries' names that the modules share, and Boolean tests.
-- - Outcome: what a C++ call comes to: a value, an exception, or a call through a null pointer.
-- - Run: stateful code. A handler takes a state and gives an outcome with its result, the state
--   after it and the list of its calls to the surroundings. Exec: the collector's calls, and `Env`,
--   which answers them. Exec/Rules has rules for sequences, Exec/Trace the requests among the calls,
--   Exec/ReadLoop the read loop of the connections.
-- - Defaults, Requests, Messages: arguments (shared/Defaults.h.in), requests and their actions
--   (source/IDevice.h, source/IDatabase.h, source/Dispatcher.h), and the protobuf messages as
--   records. Messages/Process, Messages/System and Messages/Kernel are the messages with a device's
--   data, and Messages/Payload is the switch that unpacks them.
-- - SafeList: the list of bswinfra as an interface with laws.
-- - MonitorDevice: the device's state, its connection and its lanes. MonitorDevice/DataSource and
--   MonitorDevice/Lanes are startUpdateLanes and configUpdateLanes, MonitorDevice/Connect and
--   MonitorDevice/Collect the handlers. The theorems are in Replies, Endings, Transitions, Removal,
--   Sessions and Reach below MonitorDevice, and in Requests and Keeps below MonitorDevice/Lanes.
-- - MonitorConnection: the callback of source/Connection.cpp.
-- - DeviceManager: the list of devices, with addresses for shared pointers; DeviceManager/Lookup
--   says what a hash finds, DeviceManager/Older what a new address leaves alone.
-- - Dispatcher: requestHandler and its handlers. ControlClient: the client's callback and its
--   handlers.
-- - Query: the texts for devices and sessions; Query/Columns are the enumerations
--   and names of columns in source/Query.h; Query/Schema and Query/Tables are createTables and
--   dropTables; Query/Insert, Query/Inserts and Query/AddData are the eleven addData, with
--   Query/AddData/Columns on how their rows fit the tables; Query/Statement names the statements
--   apart from their dialect.
-- - Database: what both databases share, with the loops of doLoadDevices and doCleanSessions
--   (Database/Loading, Database/Loops), what a request needs (Database/Requests) and when it is
--   answered (Database/Answers).
-- - Sqlite: runQuery over an engine; Sqlite/Rows is sqlite_callback, Sqlite/Rows/Readable and
--   Sqlite/Reading how it ends on the rows of a request's first query, Sqlite/Devices, Sqlite/Sessions and Sqlite/Data are the handlers
--   and Sqlite/Handler is requestHandler, with their theorems below them (Replies, Loading, Ending,
--   Endings).
-- - Postgres: runTransaction and reconnect over libpqxx; Postgres/Rows reads rows by position,
--   Postgres/Devices, Postgres/Sessions and Postgres/Data are the handlers and Postgres/Handler is
--   requestHandler, with its theorems below it (Replies, Endings).
-- - Options: shared/Options.cpp and the defaults. Helpers: shared/Helpers.cpp, over lists of bytes
--   (Bytes).
-- - Application: the set-up of the collector's database (source/Application.cpp, source/Main.cpp).
--   Application/Main is `main` with its command line, its daemon and its pid file, and
--   Application/Main/Lines what a command line leads to.
-- - Server: source/UDSServer.cpp; Server/Clients says which clients it takes and when it starts.
-- - System: the whole collector. Its state is the queues, the database's state with the devices, what
--   was done so far and the commands that were read; `Work` is the run of one queue's handler on its
--   oldest request, `Event` what comes from outside, `Reach` any sequence of both after the set-up.
--   System/Store is the choice of the database; System/Measure sums up requests, and System/Loops is
--   what the handlers' loops come to. The theorems are in System/Answers (no answer is lost or made
--   up), System/Drain (the handlers come to rest) and System/Sound (no request is malformed).
-- - Control: the control tool. Control/Main is its command line, Control/Main/Refusal the checks of
--   it, Control/Main/Launch the rest of `main` with control/Application.cpp, Control/Command the
--   trigger of its commands, Control/Dispatcher its queue, Control/Connection its connection and
--   Control/Trace what it did; the theorems are in Control/Main/Choice, Control/Main/Launch,
--   Control/Dispatcher/Heard and Control/Dispatcher/Ends.
-- - Number: std::to_string, std::stol, std::stoi and std::stoul.
-- - Tests: the theorems at concrete inputs.
--
-- Names are the source's, in snake case: doAddDevice is do_add_device, where the module says whose.
--
-- Parameters: the answers of the surroundings (queues, sockets, readers and writers), the unpacking
-- of protobuf messages, SafeList with its laws, SQLite as a function from a database and a text to
-- rows and a database, libpqxx as the like for a connection, with what can be read of a row's
-- fields, the key file and jnkHsh, the coding of messages as bytes, the options that getopt_long
-- reads, the process id and the time. The numbers in a device's data are the texts that the source
-- prints of them. A message's field that was never set has its default. A reference to a connection
-- that leaves the event loop is taken to be the last one there, so that its finalize callback and
-- its destructor run one after the other. A socket or data source that the library opens or reads is
-- not described beyond its answer.
--
-- Bounds: a device's port is cut to 16 bits where it becomes a socket's port, and an id of the
-- database to 32 bits over SQLite, both as in the source; a signed timestamp of PostgreSQL becomes
-- an unsigned one of 64 bits. The buffer of the descriptor has 1024 bytes, of which eight are its
-- head. The loops of the source are over finite lists, so that no fuel is needed, but for the digits
-- of a number, where the number's successor is the fuel and there are never more digits. The queues
-- of the whole collector are unbounded lists; each is first in, first out, and they are served in
-- any order.
--
-- Not modelled: the watchdog in source/Application.cpp, which is glue over systemd; the getters of
-- source/Application.h and control/Application.h; the parsing of the command lines by getopt_long;
-- the cut of a socket's path that does not fit its address; and opening and closing of SQLite's file. An exception that leaves
-- a handler ends its run, and the whole collector with it. Logging is left out everywhere.
pub mod Prelude
pub mod Outcome
pub mod Number
pub mod Defaults
pub mod Messages
pub mod Requests
pub mod Run
pub mod Exec
pub mod SafeList
pub mod MonitorDevice
pub mod DeviceManager
pub mod Dispatcher
pub mod MonitorConnection
pub mod ControlClient
pub mod Query
pub mod Database
pub mod Sqlite
pub mod Options
pub mod Postgres
pub mod Bytes
pub mod Helpers
pub mod Application
pub mod Control
pub mod Server
pub mod System
pub mod Tests
