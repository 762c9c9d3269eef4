-- ===== src/Lib.antt =====
-- platform-sdk: a client library for the AirMap services, and a daemon that follows vehicles over
-- MAVLink and keeps their flights known to the services.
--
-- The parts and how they interact. A channel (src/airmap/mavlink/channel.cpp) takes bytes from a
-- transport, frames them and hands the messages to its subscribers. The vehicle tracker
-- (src/airmap/mavlink/vehicle_tracker.cpp) hands each message to the vehicle that sent it, which it
-- makes at the first message. A vehicle (src/airmap/mavlink/vehicle.cpp) keeps what it was told, its
-- mission among that (src/airmap/mavlink/mission.cpp), and calls its monitors. The submitting monitor
-- (src/airmap/monitor/submitting_vehicle_monitor.cpp) turns these calls into calls of its submitter
-- (src/airmap/monitor/telemetry_submitter.cpp), which goes through a chain of calls of the services,
-- from the authorization to the communications of a flight, and then submits each position.
-- The daemon (src/airmap/monitor/daemon.cpp) gives each vehicle a submitter of its own. A call of a
-- service goes through requesters (src/airmap/net/http/requester.cpp) to a request
-- (src/airmap/net/http/boost/request.cpp), whose result a callback turns into an outcome
-- (src/airmap/net/http/middleware.h, src/airmap/jsend.h). A position leaves in a datagram
-- (src/airmap/rest/telemetry.cpp). A TCP route (src/airmap/mavlink/boost/tcp_route.cpp) forwards
-- messages to its clients.
--
-- The files.
-- - Base: the names that all modules share, tests on numbers, options, lists, integers.
-- - Core: the data of include/airmap: Error, Outcome, Geometry, Flight with FlightPlan and
--   Credentials. Floating is the interface of floating-point numbers.
-- - Core.Error.Lifetime and Equality (src/airmap/error.cpp): the members of an error value, their
--   construction and destruction, and ==. Core.Geometry.Assignment, Equality and Reflexive
--   (src/airmap/geometry.cpp): the same for geometries, with the == of include/airmap/optional.h.
--   An object is a number, the store a function, so that an assignment may be to the same object.
-- - Core.RuleSet (src/airmap/ruleset.cpp) and Core.Color (src/airmap/status.cpp): print is operator<<,
--   parse is operator>> on the word that it reads. Feature and Feature.Assignment: the tagged union of
--   a feature's value.
-- - Monitor.FanOut and Monitor.Service: the fan-out of traffic updates and the invocations of
--   ConnectToUpdates (src/airmap/monitor/grpc/service.cpp). Service.Streaming runs the events of the
--   gRPC library.
-- - Net.Mqtt: the subscriptions of src/airmap/net/mqtt/boost/client.cpp, theorems in
--   Net.Mqtt.Subscriptions. A packet id has 16 bits, a subscription id 8.
-- - Net.Response: the class of a status (src/airmap/net/http/response.cpp).
-- - Core.Outcome.Assignment: the union of include/airmap/outcome.h and its assignment.
-- - Monitor.Daemon: the daemon of src/airmap/monitor/daemon.cpp, which joins Mavlink.Tracker,
--   Monitor.VehicleMonitor and Monitor.Submitter. Solo is one vehicle alone, Shown and Meeting relate
--   the two, Refinement has the theorem.
-- - Rest.Telemetry: the datagrams of src/airmap/rest/telemetry.cpp. Receiver is a reader of their
--   format, which the sources do not have; RoundTrip relates them.
-- - Mavlink.TcpRoute: the route of src/airmap/mavlink/boost/tcp_route.cpp, with the sessions in
--   Sessions; theorems in Queue, Stall and Forwarding. Handlers that one call posts for each session
--   run at once.
-- - Core.Error.Order: the order of values and the map of an error; Assigning has its theorem.
-- - Net.Request: the operations of a request, src/airmap/net/http/boost/request.cpp with the resolving
--   in boost/requester.cpp of the same folder. Answers has its theorem.
-- - Net.Uri: the encoding of a query in src/airmap/net/http/boost/requester.cpp. Decoding is what a
--   server does, which the sources do not have.
-- - Net.Jsend: src/airmap/jsend.h over an interface of the JSON library. Rejection has the branches
--   that end in an error, Acceptance the theorem.
-- - Net.Middleware: the callbacks of src/airmap/net/http/middleware.h and of authenticate_with_password
--   in src/airmap/rest/authenticator.cpp; Hearing joins them with Net.Request.
-- - Core.Airspace: include/airmap/airspace.h with src/airmap/airspace.cpp. Details has the structs,
--   Members the union; theorems in Assignment and Comparison.
-- - Net.Requesters: the requesters of src/airmap/net/http/requester.cpp and requester_with_api_key.cpp;
--   Outstanding has the theorem.
-- - Core.Token: include/airmap/token.h with src/airmap/token.cpp; Assignment has its theorems.
-- - Boost.Context: run and stop of src/airmap/boost/context.cpp.
-- - Util.CheapRuler, TelemetrySimulator and ScenarioSimulator, with Runner: the files of these names in
--   src/airmap/util; theorems in TelemetrySimulator.Moves and ScenarioSimulator.Reports.
-- - Cmds.Scenario: the command of src/airmap/cmds/airmap/cmd/simulate_scenario.cpp with its collector and
--   requests, in Steps its callbacks. Invariant, Collecting, Callbacks, Running and Completion lead to the
--   theorem in Outset. Announcement: what a new client of the router is sent; Heard relates it to
--   Mavlink.Vehicle.
-- - Util.TabWriter: the tables of src/airmap/util/cli.cpp. Table has the description of a table, Flush the
--   theorem. Iterators into the widths are indices.
-- - Monitor.Client: src/airmap/monitor/grpc/client.cpp with the loop of src/airmap/grpc/client/executor.cpp.
--   Streams, Handover and Operations lead to the theorems in Delivery and Answers.
-- - Cmds.Login: src/airmap/cmds/airmap/cmd/login.cpp on Core.Token and Boost.Context; the theorem is in
--   Login.Renewals.
-- - Codec.Json: the JSON library as an interface, and get of src/airmap/codec/json/get.h. Codec.Json.Token:
--   src/airmap/codec/json/token.cpp; RoundTrip has its theorem.
-- - Mavlink.Message: the decoded messages, and the interface of the MAVLink library.
-- - Mavlink.Channel, Mission, Vehicle, Tracker: the classes of these names in src/airmap/mavlink. A
--   method is a function of its name, from the members to the members and what it calls.
--   Their children hold the theorems: Channel.Counting and Filtering, Mission.Upload, Tracker.Frame
--   and Added.
-- - Monitor.Submitter: the class TelemetrySubmitter. Types has its members and the calls it makes,
--   Comms, Plan and Steps its private methods from the last to the first, Events its public methods,
--   the callbacks of its calls, and runs of events. Calls counts calls by kind. Safety, Budget,
--   Leftovers, Deactivation and Progress hold the theorems.
-- - Monitor.VehicleMonitor: the class SubmittingVehicleMonitor, and in Phases what it makes of the
--   status of a vehicle.
-- - Examples: the theorems at concrete values.
--
-- How the code is modelled. Undefined behaviour (the value of an empty optional, a failed
-- assertion, a wrong member of a union) is the result none, as is an exception that nothing catches
-- (Cmds.Login); where exceptions are caught (Net.Jsend), a
-- result of its own keeps them apart. The
-- calls that a submitter makes are kept in a list, the latest first; their callbacks run later,
-- each as an event of its own, so every order of replies is a list of events. An event reads the
-- clock and the source of UUIDs once. Floating-point numbers are one type with the operations that
-- the code uses. The MAVLink library is the interface Mavlink, its framing the interface Parser.
-- The counters of a channel wrap at 2 ^ 64. The counters of a mission are numbers of 16 bits that
-- are never compared beyond that range. A pointer to a monitor is a number, an unordered set a list
-- in the order of its iteration. The recursion of the code is on lists. Only the reader of
-- datagrams counts down, from the length of its input: each record takes four bytes at least, so
-- that is enough. The JSON library, the encryption and the serialization of protocol buffers are
-- parameters.
--
-- Not modelled: logging, sockets and serial ports, threads and their locks, the codecs but that of the
-- token, the paths that the REST clients call, the options of the command line, the commands that
-- print what one call returns, and the Qt bindings. Libraries from elsewhere, generated code and the
-- JSON library are no part of this code.
mod Base
pub mod Boost
pub mod Codec
pub mod Cmds
pub mod Core
pub mod Mavlink
pub mod Monitor
pub mod Net
pub mod Rest
pub mod Util
mod Examples
