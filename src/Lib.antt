-- ===== src/Lib.antt =====
-- A model of Garçon, a small HTTP/1.1 server, and of the shared modules that answer its requests.
--
-- The program. The accept loop (src/server.cpp) admits a connection through the limiter of
-- connections per address (src/app/ip_connection_limiter.cpp) and hands its socket to a bounded queue
-- (src/app/work_queue.cpp), from which the workers (src/app/worker_pool.cpp) take it. A worker reads a
-- header block (src/http/framing.cpp, src/http/buffer.cpp), parses it (src/http/request.cpp), passes
-- the request through an ordered pipeline of modules (src/app/request_pipeline.cpp), each of which
-- stands behind a C interface (include/garcon/module_cpp.h, src/app/dynamic_module.cpp), and writes
-- the response (src/http/response.cpp). The modules are under lib/. Bytes go over sockets (src/net/)
-- or TLS (src/tls/). The command line (src/app/command_line.cpp) and the .conf files of a directory
-- (src/app/module_config.cpp) say what is served and which modules are loaded.
--
-- The files.
--   Prelude             numbers, tests, lists, and the results of code that may throw (Results) or
--                       that returns std::expected (Expected)
--   Text                std::string and std::string_view as lists of bytes; the text helpers that
--                       request.cpp and the modules each define: trim, split_fields, ascii_iequals
--   Http.Header         src/http/header.h; find_header and header_value
--   Http.Request        src/http/request.cpp: request is Request, request::parse is parse,
--                       keep_alive_requested has its name
--   Http.Response       src/http/response.cpp: response is Response; set_header, add_header, serialize
--   Http.Framing        src/http/buffer.cpp as Buffer, grow and commit; src/http/framing.cpp as
--                       read_header_block, over a stream that is a parameter
--   Net.Calls           what a system call returns, and status_from_errno
--   Net.Socket          src/net/socket.cpp: recv_some and send_all over recv and send
--   Net.Listener        src/net/listener.cpp: the constructor and accept
--   Net.Tls             src/tls/stream.cpp: handshake, recv_some and send_all over OpenSSL's calls
--   App.CommandLine     src/app/command_line.cpp and src/server_config.h: the options and
--                       finalize_options; App.CommandLine.Parsing has the loop of parse
--   App.Discovery       src/app/module_config.cpp
--   App.Loading         the constructor and destructor of src/app/dynamic_module.cpp
--   App.Limiter         src/app/ip_connection_limiter.cpp
--   App.Queue           src/app/work_queue.cpp: a method is one step under the mutex, and a call that
--                       has to wait says so; its child WakeUps has the condition variables, with who
--                       sleeps, who is woken and which notifications are due
--   App.Pipeline        src/app/request_pipeline.cpp and src/app/request_module.h
--   App.Server          src/server.cpp and src/app/worker_pool.cpp as a step relation: each critical
--                       section of the accept loop and of a worker is a step, in any interleaving
--   App.Connection      src/app/connection_handler.cpp: the loop of handle_connection; round is one
--                       round of it, over a stream and a handler that are parameters
--   Modules.Abi         include/garcon/module_cpp.h and src/app/dynamic_module.cpp: what a module
--                       returns or throws, as the host sees it
--   Modules.KeyValue    key_value_config of include/garcon/module_cpp.h
--   Modules.Config      the loop over configuration lines, method and target patterns, status codes
--   Modules.Routes      the routes that lib/route_table and lib/router read
--   Modules.RouteTable  lib/route_table
--   Modules.Router      lib/router
--   Modules.HeaderGuard lib/header_guard
--   Modules.HostGuard   lib/host_guard
--   Modules.Cors        lib/cors
--   Modules.JwtAuth     lib/jwt_auth: the constructor as create, and handle; its children Base64, Json
--                       and Tokens have the decoder, the reading of claims and validate_and_extract,
--                       and Shield puts it in front of a pipeline
--   Modules.RateLimit   lib/rate_limit: check_and_consume and handle with the buckets passed through;
--                       its child Rules has the rules and their reading
--   Modules.StaticFiles lib/static_files, over a file system that is a parameter; its child Root has the
--                       two constructors
-- A child module named for what it proves holds the theorems of its parent, and a child named Tests
-- the runs on concrete data.
--
-- Conventions. A text is the list of its bytes, and a byte is a natural number. A search returns the
-- text before the hit and the text behind it in place of a position. A C++ exception is the throw of
-- Result; an overflow of a signed integer is its undefined. Sizes are natural numbers: no size here
-- comes near the range of std::size_t, since the header buffer is bounded and a file is limited. The
-- status of a response is a natural number, where the source has an int.
--
-- Fuel. read_header_block counts its rounds: each successful read adds a byte, and the loop ends
-- once max_bytes are there, so max_bytes + 1 rounds are enough. Should they not be, round of
-- App.Connection is unfinished and serve has not ended. print_digits, the printing of a
-- number n, is given n + 1 digits of fuel, and a number has no more digits than its value. serve,
-- the loop over the requests of a connection, takes any fuel: each round that goes on uses up
-- input. recv_some, accept and send_all of Net.Socket and Net.Listener go on after an interruption:
-- with a number of interruptions to come that each of them lowers, one round more than that number,
-- and for send_all than the number and the bytes together, is enough. send_all of Net.Tls takes at
-- least a byte in each round. Every other function is structural.
--
-- Parameters. The stream that read_header_block reads from stands for recv and SSL_read_ex, with
-- the hypothesis that a successful read yields the next bytes of the stream, at least one and at most
-- as many as there is room for, and that any other read takes none. recv and send are parameters of Net.Socket, with the hypotheses that a call takes or
-- gives the next bytes and no more than it is asked to, that one that fails moves none, and that
-- interruptions come to an end; so are the calls of OpenSSL in Net.Tls and accept in Net.Listener. The file system of
-- Modules.StaticFiles stands for std::filesystem and std::ifstream, with no hypothesis; that of
-- App.Discovery has an order of paths that is asymmetric; that of App.CommandLine comes with the
-- number of processors, which an unsigned int holds. Modules.StaticFiles.Root and App.Loading
-- take what they ask of the file system and of a library. Modules.JwtAuth takes HMAC and the clock, and
-- Modules.RateLimit the type double with the operations that the source uses: of these it is assumed
-- that no time lies between a tick and itself, that the numbers of an int are compared with 1 as
-- they are, and that 1 is taken from them exactly. A pipeline's modules are any functions. The stream
-- of App.Connection also has timeouts, and sends, with the hypothesis that what goes out is what it is
-- handed from the start on, and all of it where send_all returns ok; that the loop over its requests
-- ends rests on the hypothesis that the peer sends finitely many bytes.
--
-- Not modelled: what handle_connection does before its loop (the stream's creation and its
-- handshake), logging and events, the creation of threads and of TLS contexts
-- (src/tls/context.cpp). Two requests in lib/rate_limit are taken
-- one behind the other, though the second look at a bucket stands behind the first lock; HMAC is given
-- texts below 2^31 bytes, whose sizes an int holds.
pub mod Prelude
pub mod Text
pub mod Http
pub mod Net
pub mod App
pub mod Modules
