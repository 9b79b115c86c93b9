-- ===== src/Lib.antt =====
-- tunnel-drill: a broker that forwards connections from its public ports to services behind a
-- publisher. The publisher keeps a control connection (a websocket with JSON messages) to the broker
-- and announces its services. The broker opens a public port for each of them. When a client connects
-- there, the broker asks the publisher over the control connection for a tunnel; the publisher
-- connects to the same port with a prefix and a signed token, and the broker links the two
-- connections by a pipe in each direction.
--
-- Parts, and the code that they are about:
--   Json              the JSON values (sharedpp/include/sharedpp/json.hpp, the nlohmann library)
--   Parser            StreamParser, brokerpp/src/brokerpp/control/stream_parser.cpp
--   Dispatcher        Dispatcher, brokerpp/src/brokerpp/control/dispatcher.cpp
--   ControlSession    ControlSession, brokerpp/src/brokerpp/control/control_session.cpp
--   Tunnel            TunnelSession and the session table of Service,
--                     brokerpp/src/brokerpp/publisher/tunnel_session.cpp and service.cpp
--     Tunnel/Close    TunnelSession::close, PipeOperation::close, Service::closeTunnelSide
--     Tunnel/Link     TunnelSession::link and pipeTo, Service::connectTunnels
--     Tunnel/Peek     TunnelSession::peek and resetTimer with their handlers
--     Tunnel/Accept   Service::start, stop and acceptOnce
--     Tunnel/Reach    a service from its constructor on, as a step relation, and connectTunnels in it
--     Tunnel/Destroy  the destructors of Service and TunnelSession
--     Tunnel/Served   the handlers of a whole tunnel, one after the other
--   Pipe              PipeOperation, sharedpp/include/sharedpp/pipe_operation.hpp
--   Broker            Publisher of the broker, brokerpp/src/brokerpp/publisher/publisher.cpp
--   Registry          obtainPublisher and the upgrade handler of PageAndControlProvider,
--                     brokerpp/src/brokerpp/request_listener/page_control_provider.cpp, with
--                     ControlSession::setup and its destructor
--   Auth              UserControl, Authority, PublisherToken and Authenticator,
--                     brokerpp/src/brokerpp/{user_control,authority}.cpp,
--                     brokerpp/src/brokerpp/publisher/publisher_token.cpp and
--                     brokerpp/src/brokerpp/request_listener/authenticator.cpp
--     Auth/TunnelToken  the token for one tunnel
--   Admission         the route for the control connection, PageAndControlProvider::publisher, and the
--                     publisher's request
--   PublisherClient   Publisher of the publisher, publisherpp/src/publisherpp/publisher.cpp
--   PublisherService  Service and ServiceSession of the publisher,
--                     publisherpp/src/publisherpp/service.cpp and service_session.cpp
--     PublisherService/Close   ServiceSession::close, its destructor and the callback
--     PublisherService/Create  Service::createSession and its write handler
--     PublisherService/Reach   the service from its start on, as a step relation
--   Announcement      the handshake between the two Publishers: service.hpp and connectToBroker of
--                     publisherpp, service_info.hpp and setCurrentControlSession of brokerpp
--   Conversation      the subscribers of a control session, setCurrentControlSession, and the read
--                     handler with them, publisher.cpp and control_session.cpp of brokerpp
--   MemoryUnit        MemoryUnit, sharedpp/include/sharedpp/memory_unit.hpp
--   PrintableString   makePrintableString, sharedpp/src/sharedpp/printable_string.cpp
--   Home              the files under ~/.tbore, sharedpp/src/sharedpp/load_home_file.cpp
--     Home/PublisherConfig, Home/BrokerConfig   config.hpp and config.cpp of publisherpp and brokerpp
--     Home/Users      the users file, brokerpp/src/brokerpp/user_control.cpp
--     Home/Startup    main.cpp of brokerpp and of publisherpp, up to the wait for the signal
--   Whole             a tunnel through both programs, over the parts above
--   Prelude           lists, tests, dictionaries and outcomes of calls that the parts share
--
-- State and operations. The fields of a record are the members of the C++ struct `Implementation`
-- under their names; an operation is a function from state to state under the name of the C++
-- function; a handler that a library calls later is a function `on_…` whose arguments are what the
-- library answers. Asynchronous calls are counted (`in_flight`, `accepting`, `waits`) or returned as
-- actions. Sessions that point at one another are kept in a heap under their ids, and whether a weak
-- pointer can be locked is a test on that heap. Handlers are taken as atomic, which is an assumption:
-- the executor has several threads, and the mutexes are not held for whole handlers (TunnelSession::
-- close releases its lock before it calls closeTunnelSide, and the handler of the first read holds
-- none). An interleaving is a sequence of handlers here; the step relations of ControlSession/Queue,
-- PublisherClient, Tunnel/Reach and PublisherService/Reach are such sequences.
--
-- Bounds and fuel. Ports are kept as the 16 or 32 bits of their C++ types; the total of a pipe wraps
-- at 2 ^ 128, and the length of a token at 2 ^ 64. `close` calls itself through pipes, so it runs on
-- fuel; a call that goes deeper closes one more open session, and more fuel than there are open
-- sessions is enough; on the publisher's side two units are. A first read delivers at most the bytes
-- of the peek buffer, 4096 for a new session. The count of open braces is an unbounded integer, which
-- differs from the int of the code only past 2 ^ 31 braces. The result `undefined` stands for
-- undefined behaviour of C++, `thrown` for an exception that leaves a handler.
--
-- Parameters. The JSON text functions, boost's uint128_t, SHA-512, base64, the JWT library, the HTTP
-- client, the sockets and the ids of the generator are arguments of the definitions that use them.
--
-- Not modelled: what server.start answers; claims that are a JSON array; file serving and redirects; log lines, option parsing and thread pools; JSON numbers
-- with a fraction; exceptions of socket calls on the publisher's side, but that of the resolver; the
-- durations of timers, except the delays of the reconnect timer; the TypeScript programs.
pub mod Prelude
pub mod Json
pub mod Parser
pub mod Dispatcher
pub mod Tunnel
pub mod Pipe
pub mod ControlSession
pub mod PublisherClient
pub mod Broker
pub mod Registry
pub mod Auth
pub mod Announcement
pub mod PublisherService
pub mod Conversation
pub mod MemoryUnit
pub mod Admission
pub mod PrintableString
pub mod Home
pub mod Whole
