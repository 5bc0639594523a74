-- ===== src/Lib.antt =====
-- Verification of rservr, a server that starts clients and carries their commands to each other.
--
-- The server keeps tables of clients, of the services that clients offer, and of monitors; the
-- tables refer to each other by handles, the addresses of the clients' records. Commands wait in a
-- queue and are moved to a cache, whose front the executing thread takes. A command for the server
-- itself is checked and then run through an interface that changes the tables behind permission
-- masks; any other command is routed to the client or the service that it names. Addresses name a
-- route through other servers, each of which splits off the next hop. Permissions, types and events
-- are bit masks.
--
-- A client holds the commands that it has prepared, the statuses of those that it has sent, and a
-- queue of messages. What it receives goes through an interface that reports events to the
-- statuses, makes messages of requests and responses, and keeps commands that are to be passed on.
--
-- Files and code:
--   Base: Boolean tests, lists and texts that all parts share.
--   Flags: libs/protocol/api-command.cpp and libs/include/protocol/api-command.h. Flags/Bits and
--     Flags/Tests read the tests on masks bit by bit.
--   Address: libs/protocol/conversion.cpp (next_client_scope, insert_separate_scope,
--     set_to_server_scope and the others). Address/Hops is about single hops, Address/Routes about
--     routes of many.
--   Address/Labels: libs/protocol/api-label-check.cpp. Scan replaces the positions of the loop by
--     phases, Shape says which texts are accepted, Leading is about a first separator.
--   Server: the state, from libs/server/local-include (local-client.hpp, service-list.hpp,
--     monitor-list.hpp, protected-server.hpp). One record holds the tables, and `sent` what leaves
--     the server, in the order of the code's calls, newest first.
--   Server/Clients, Server/Services, Server/Monitors, Server/Naming: the operations of
--     libs/server/client-list.cpp, service-list.cpp, monitor-list.cpp and name-check.cpp, with
--     their laws in Laws.
--   Server/Register: set_registered_client_type (client-list.cpp), cut into the parts that follow
--     each other; Permits is about what it accepts, Effects about what it changes.
--   Server/Route: send_client_command (client-list.cpp), cut the same way; Rules restates its tests
--     as a policy, Judged and Outcomes go through its paths.
--   Server/Removal: remove_client_common and the loops around it (client-list.cpp), and the
--     destructor of client_id (local-client.cpp). Tables is about one removal, Loop about the loops;
--     Everyone has disconnect_all_clients and abort_all_clients.
--   Queue: libs/server/local-include/execute-queue.hpp, the heap of waiting commands; Up is about
--     insertion, Best and Down about sifting down, Top about taking the first command,
--     Drain about the loop of server_execute_next (execute-thread.cpp), Cancel about removal,
--     Lengths about how many wait.
--   Server/Execute: validate_and_execute (api-server.cpp) and execute_single and internal_execute
--     (execute-thread.cpp). Steps is about a round, Loop about all, Origin about what is evaluated.
--   Server/Interface: interface_* (api-server.cpp) behind the permissions of
--     external_server_interface (execute-thread.cpp); Endings has the requests that end clients.
--   Server/Sound: the invariant on the references between the tables, over a step relation with a
--     step for each request of Server/Interface and for the removal of a client.
--   Server/Names: the invariant that a name finds one party at most, over the same steps.
--   Server/Settings: set_limit, get_limit and the permissions (api-server.cpp). Limits is about
--     reading what was set, Admission about queue_client_command and requeue_server_command.
--   Terminal: take_terminal_control and its counterparts (libs/server/server-command.cpp) and
--     request_terminal (execute-thread.cpp); Control and Policy prove about them.
--   Client/Commands: libs/client/command-queue.cpp, the prepared commands. Finding and Map read the
--     list as a map from handles, Runs is about sequences of calls, Sending and Forwarded about
--     what goes out and what waits to be passed on, Scopes about hops that are put in front.
--   Client/Status: libs/client/api-command-queue.cpp, sending and the statuses of what was sent.
--     Events is about one event, History about many, References about new numbers, Sent about
--     sending, Waiting about cancelable_wait_command_event.
--   Client/Messages: the queue of messages of libs/client/api-message-queue.cpp. Keeping has its
--     operations, Orderly its invariant, Uses what is done to it, pauses by hand and of the thread of
--     a timed pause included; Order compares it with a queue, Emptying and Responses are about taking
--     messages; Blocking has the flags of what is let in.
--   Client/Receiving: external_client_interface (api-message-queue.cpp). Guards is about what is
--     let in, Remote about commands to pass on, Replies about a request and its response.
--   Client/Streams: filtered_send_stream_command, receive_stream_command and the checks on labels
--     (api-command-queue.cpp), and the fields that transmission carries (send_data,
--     libs/protocol/ipc/command-transmit.cpp). Queued is about one stream, Crossing about a command
--     and its answer, Targets about ways through other clients.
--   BitData: programs/other/rsvbits/bit-data.cpp and bit-data.hpp; Tables has the names, Positions
--     and Masks are about the bits, Names about names and back.
--   Arguments: libs/protocol/api-config-parser.cpp, the arguments of a line; Splitting is about
--     argument_delim_split.
--   Tests: runs on small inputs, and instances of the theorems.
--
-- How it is modelled: the containers are lists, in their order. A handle is a number, 0 the null
-- pointer, and stands for one record of the table; writes through a pointer go to the record with
-- that handle. Masks are numbers, with `~` in 32 bits. Counters of the server do not wrap. Memory is taken to be
-- granted, and so are locks. Logging is left out. What the C library, the operating system or a
-- plug-in answers is a parameter: regular expressions, sessions and process groups, whether a
-- command could be written, what a server command does, and what a functor answers to an event.
-- Times of a client are counted in whole units, and the shares of a full queue in parts of which a
-- given number make up the code's 1.0; where the container leaves the index of the current message
-- when it removes another is a parameter.
--
-- Bounds and fuel: the loops that remove clients get one round for each client of the table, and
-- the loop that executes gets a number of rounds that is at least the length of the cache; each
-- round removes an element, so the loops end by themselves. The loops of the heap get one round for
-- each element. The wait for an event gets one round for each unit of its limit and one more, and
-- the search for the bits of a mask 65, one more than it has bits. The limits on labels and
-- penalties, and the order of the heap, are those of param.h.
--
-- Not modelled: creating processes and connecting detached clients (system calls), the value of a
-- priority (floating point, a comparison given as a parameter), updates to monitors of events,
-- niceness, users and groups, the threads and pipes of the client library, the reading of lines of
-- configuration files, how transmission writes and parses, the limit of the queue of waiting commands
-- (it is set and never read), tables of delays, plug-ins, the other programs,
-- bindings, and the containers, which are copies of other libraries.
pub mod Base
pub mod Flags
pub mod Address
pub mod Server
pub mod Terminal
pub mod Queue
pub mod Client
pub mod BitData
pub mod Arguments
pub mod Tests
