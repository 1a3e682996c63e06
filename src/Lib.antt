-- ===== src/Lib.antt =====
-- Verification of the rtcvpn tunnel: a client that browsers use as a SOCKS5 or HTTP proxy, and a
-- server that makes the connections, joined by a data channel that carries frames.
--
-- The program's parts and where they stand here:
-- - Protocol: Src/common/src/session_protocol.cpp. Frame (FrameHeader, make_frame), Syn and Udp
--   (the payloads), Message (packMessage, unpackMessage), Origin (ToOriginForm), Types (the
--   enumerations of session_protocol.h) and Word (bytes and 32-bit words).
-- - Mux: Src/common/include/session_mux.h and Src/common/src/session_mux.cpp. Mux/Manager is
--   Session and SessionManager; Mux itself is SessionMux, on_p2p_data and the send functions.
--   Mux/Abstract is the table of sessions as a quotient: the session of every stream id, with the
--   order of the map and the places of the objects forgotten. Mux/Interleaving is a multiplexer
--   with the sessions, callbacks and frames of all streams in any order.
--   A function that the program installs as a callback is a number here, and what the
--   multiplexer calls is a value of type Call.
-- - TcpSocket: Src/common/src/tcp_socket.cpp. Each handler that runs in the strand is a function
--   to the new state and its effects; TcpSocket/World runs them on every order of events.
-- - UdpSocket: Src/common/src/udp_socket.cpp, in the same way.
-- - P2p: Src/common/include/p2p_session_controller.h with Src/common/src/signaling.cpp and
--   Src/common/src/p2p_client.cpp: the login and the peer connection. P2p/Library is what they use
--   of the JSON and WebRTC libraries; P2p/Events runs the handlers on any events.
-- - Http: Src/common/include/http_parse.h. Http itself is the message and its lookups, Parser
--   the callbacks of llhttp and feed, Serialize the texts that it writes, and Forwarding
--   prepare_for_forwarding.
-- - Client: Src/client/src/tcp_session.cpp, the browser's connection. Handlers is process_data
--   and the phases, Callbacks what the tunnel and the TCP socket call, Wiring the effects of a
--   session carried out by the multiplexer, and Response the callbacks of the response parser.
--   Client/Udp is Src/client/src/udp_session.cpp.
-- - Server: Src/server/src/tunel_session.cpp with the interface classes of Src/server that it
--   owns, the SYN handler of Src/server/src/process_new_client.cpp, the session ids, and in Request
--   the callbacks of the request parser of Src/server/src/http_session.cpp.
--   Server/Interface is the SessionInterface by itself, with the functions that it is given.
--   Server/Process is the rest of process_new_client.cpp: a client's table of tunnels, the timer
--   of Src/common/include/timer.h that removes it, and the table of clients.
-- - App: Src/client/src/network_rtc_app.cpp, which joins the controller, the multiplexer and
--   App/SocksServer, the accept loop of Src/client/src/socks5.cpp. App/Pipe is about the way of a
--   frame through the data channel.
-- - Config: Src/client/include/client_config.h and Src/server/include/server_config.h.
-- - Logger: Src/common/include/rtc_logger.h, with its queue as an interface.
-- - Startup: Src/client/src/main.cpp (ClientMain) and Src/server/src/main.cpp (ServerMain) with the
--   loop that both wait in (Keyboard), and Src/common/src/crash_dump.cpp (CrashDump).
-- Common holds what all share: tests on numbers, lists, and the names of the library.
--
-- How state and effects are written: a method takes the state and gives the new state with the
-- effects in order. In Client a method gives none where the program reads outside the receive
-- buffer, follows a null pointer, or throws an exception that nothing catches.
--
-- Bounds and fuel: words keep their width by `% 2 ^ w`, and the host is little-endian, so that
-- hton32 swaps bytes. consume_loop runs on fuel, one round for each byte received and one more;
-- digits_from runs on fuel above its number; gen_stream_id consumes a list of draws.
--
-- What is an argument: what llhttp reports for an input, the draws of the random generator, the
-- stream id that a created session gets, asio's make_address_v4, the parser and serialiser of
-- JSON, the ini library, the logger's queue, the text that put_time makes of a time, and the
-- outcomes of operations of the network libraries.
--
-- Not modelled: SimpleIni.h and concurrentqueue.h, copies of other projects; locks, since every
-- operation is one step; and what only asks the operating system, such as the folder of the
-- program, the local port of a socket, and the contents of a crash dump.
pub mod Common
pub mod Protocol
pub mod Mux
pub mod TcpSocket
pub mod UdpSocket
pub mod P2p
pub mod Http
pub mod Client
pub mod Server
pub mod App
pub mod Config
pub mod Logger
pub mod Startup
