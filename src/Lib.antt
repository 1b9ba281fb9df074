-- ===== src/Lib.antt =====
-- Verification of lightnet, a C++ library for network servers.
--
-- The program and its parts
--   core/buffer      the growable byte buffer between sockets and codecs
--   core/event_loop  the loop of a thread: ready events, timers, and the tasks that others queue
--   core/channel, core/epoll_poller
--                    the events a descriptor is watched for, and epoll
--   core/timer_wheel one-shot and repeating timers of an event loop
--   core/event_loop_thread_pool
--                    the loops that connections are spread over
--   net/             TCP connections, their table and server, and the UDP server
--   coro/            what a coroutine can wait for
--   metrics/         counters and histograms, exported as text
--   rpc/             frames of remote calls over TCP, and the server that answers them
--   http/            the parser of requests, a state machine over a buffer, the responses, the server
--   game/            the datagrams of a game, the match that they play in, and its server
-- EventLoop::loop waits in EpollPoller::poll and gives the ready events to Channel::handle_event, which
-- calls TcpConnection::handle_read and handle_write; these fill and empty the connection's buffers and
-- queue the coroutine that waits. TcpServer makes the connections in a loop of the pool and enters
-- them in ConnectionManager. The coroutine of HttpServer or RpcServer takes requests off the input
-- buffer with HttpParser::parse or RpcCodec::decode, and waits in AsyncRead for the rest of one. A
-- datagram goes from UdpServer::handle_read to GameServer::on_datagram, is decoded by
-- GameCodec::decode, its payload by one of the decoders, and GameRoomManager::handle_packet changes with
-- it the match, GameRoom, in which the datagram's sender plays; GameRoom::tick brings about the
-- snapshot that is encoded for every player.
--
-- Files
--   Common        tests, lists, signed integers and byte strings over the native numbers
--   Buffer        include/lightnet/core/buffer.h, src/core/buffer.cpp
--     A vector and two indices. `peek` is the list of the bytes between them; a write past the vector
--     is `none`. Space, Append, Take and Find hold what its operations do to the readable bytes.
--   Core.Channel  include/lightnet/core/channel.h, src/core/channel.cpp: Channel. A mask is a number.
--   Core.EpollPoller
--                 include/lightnet/core/epoll_poller.h, src/core/epoll_poller.cpp: EpollPoller, over a
--                 kernel that is a parameter
--   Core.EventLoop
--                 include/lightnet/core/event_loop.h, src/core/event_loop.cpp: the queue of tasks and the
--                 wake-up descriptor, as the steps of several threads
--   Core.ThreadPool
--                 src/core/event_loop_thread_pool.cpp: start and get_next_loop
--   Net.Connection
--                 include/lightnet/net/tcp_connection.h, src/net/tcp_connection.cpp: TcpConnection. A
--                 function of the code is one of the same name; its branches have names of their own.
--                 A log records the system calls, the metrics and the queued closures.
--   Net.Manager   src/net/connection_manager.cpp: ConnectionManager with the gauge of Metrics
--   Net.TcpServer src/net/tcp_server.cpp: what new_connection and remove_connection run in the loops
--   Net.UdpServer src/net/udp_server.cpp: handle_read, start and send_to
--   Coro.Awaitable
--                 src/coro/scheduler.cpp: AsyncRead, AsyncWrite and AsyncSleep
--   Metrics       include/lightnet/metrics/metrics.h, src/metrics/metrics.cpp: Metrics
--   Game.Packet   include/lightnet/game/game_packet.h: the messages
--   Game.Wire     src/game/game_codec.cpp: append_u8 to read_f32
--   Game.Payload, Game.Snapshot, Game.Codec
--                 src/game/game_codec.cpp: the encoders and decoders, named as there
--   Game.Player, Game.Room
--                 include/lightnet/game/room.h, src/game/room.cpp: what a call writes to one player,
--                 and GameRoom with its functions. The loops over players_ are recursions on its list.
--   Game.Send, Game.Manager, Game.Dispatch
--                 include/lightnet/game/room_manager.h, src/game/room_manager.cpp: the functions that
--                 send, the table of peers, and handle_packet and tick_all of GameRoomManager
--   Game.Server   src/game/game_server.cpp: GameServer
--   Rpc.Codec     include/lightnet/rpc/rpc_codec.h, src/rpc/rpc_codec.cpp: RpcCodec
--   Rpc.Server    src/rpc/rpc_server.cpp: RpcServer::dispatch, and the coroutine
--                 RpcServer::handle_connection from one suspension to the next, as `serve`,
--                 `resume_read` and `resume_write`; `drain` is its inner loop where no bytes come
--                 while the answers are written
--   Http.Text     the text functions of the C++ library that http/ uses
--   Http.Message  src/http/http_message.cpp
--   Http.Parser   src/http/http_parser.cpp: HttpParser. One round of its loop is `advance`.
--   Http.Server   src/http/http_server.cpp: the routes, and the coroutine HttpServer::handle_connection from
--                 one suspension to the next, as `serve`, `resume_read` and `resume_write`
--   Timer         include/lightnet/core/timer_wheel.h, src/core/timer_wheel.cpp: TimerWheel
--   Tests         runs at concrete inputs
--
-- Numbers, fuel and parameters
--   Words are native numbers; a conversion to a narrower word is written as a remainder. Signed words
--   are integers with their two's complement. Sizes of objects in memory do not wrap.
--   Some loops run on fuel. Http.Parser.parse brings its own, three rounds more than there are bytes,
--   and does not run out of it; for Rpc.Server.drain and Timer.tick_loop the fuel is an argument, and
--   the theorems say how much is enough, or that none is. Http.Text.to_string has a round for each
--   digit and more.
--   The coroutines of the two servers have fuel for the rounds between two suspensions; where they come
--   to a stop they need one round more than they make, and the theorems say where they never do.
--   Parameters are what the kernel answers to reads, writes and epoll_ctl, the clock, the callbacks and
--   handlers that users set, the arithmetic of float, on bit patterns, of Game.Player.Float32, and the
--   text that inet_ntop makes of an address.
--
-- Not modelled
--   System calls as such (net/socket_ops), the constructors and destructors that only make them, the
--   io_uring poller, the logger, and the example programs. The machinery of C++ coroutines in
--   coro/task.h is what the language does: a coroutine is modelled as the code between two suspensions.
--   Memory is not modelled: which closures outlive the objects that they point to is not stated.
pub mod Common
pub mod Buffer
pub mod Core
pub mod Coro
pub mod Game
pub mod Http
pub mod Metrics
pub mod Net
pub mod Rpc
pub mod Timer
pub mod Tests
