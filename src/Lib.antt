-- ===== src/Lib.antt =====
-- kd39, a game back end of gRPC services behind an HTTP and WebSocket gateway.
--
-- The parts and how they interact. A client sends a request to the access gateway. The gateway
-- normalizes its headers, authenticates its bearer token (Auth), builds the request context, and
-- either answers an administrative path itself or hands path and body to the router. The router
-- reads the body as JSON, picks the stub of a service, and calls it under the service's rate
-- limiter, circuit breaker and bounded retries (Governance), with the context as gRPC metadata
-- (Context). The services (user, config, game) keep their own tables and, where they are set up, a
-- Redis cache, MySQL rows, a message queue and an etcd configuration provider (Storage, Mq,
-- Coordination). Logger and metrics belong to the process.
--
-- Which file models which part:
--   Auth/Base64, Auth/Token: gateways/access_gateway/auth/auth_middleware.cpp
--     (Base64UrlEncode, DecodeBase64UrlChar, Base64UrlDecode, ConstantTimeEqual,
--     AuthMiddleware::Authenticate and its checks one by one).
--   Gateway/Http, Gateway/Server, and the modules Headers and Ws below Http:
--     gateways/access_gateway/http/http_server.cpp (HandleRequest, HandleRequestAsync,
--     HandleWsMessage, HandleWsMessageAsync) and gateways/access_gateway/context. The two bodies of a
--     request are written out twice there and here; Gateway/Http/Body states once what they share. `Server` is the state that
--     a handler may change: router, logger, metrics.
--   Gateway/Session, Gateway/Lifecycle: HandleSession, and Start, Stop and AcceptLoop, of the same
--     file. A `Peer` is what a connection's reads, writes and handshake answer; a server's threads,
--     contexts and guards are counts and flags, and a use of a destroyed context is a flag.
--   Gateway/Invoke: InvokeWithResilienceAsync, HttpStatusFromGrpc and the retry test;
--   Gateway/Messages: the requests and responses of the routes as JSON;
--   Gateway/Router, Gateway/Router/Route: GrpcRouter, RouteWithStatusAsync and its wrappers;
--     Gateway/Router/Workers: the threads of the gRPC context; all of
--     gateways/access_gateway/routing/grpc_router.cpp.
--   Governance/Breaker, Limiter, Retry: framework/governance (circuit_breaker.cpp,
--     rate_limiter.cpp, retry_policy.h); TrafficRouter's Select (traffic_router.cpp) stands with
--     Gateway/Router.
--   Context/Store, Context/Metadata: common/context/context_store.cpp and framework/rpc
--     (client_interceptor.cpp, server_interceptor.cpp).
--   Application: framework/app/application.cpp (AddShutdownHook, Run, SignalHandler), as steps of the
--     main thread and of signals in any order.
--   Processes, Processes/AccessGateway: the main functions of services/*_service/main.cpp and of
--     gateways/access_gateway/main.cpp. ErrorCodes: common/error/error_code.cpp.
--   Bench and the modules below it: bench/gateway_http_ws_bench.cpp (ParseArgs, the workers of
--     RunHttpBench and RunWsBench, Percentile, RunMixedBench).
--   GrpcCli, GrpcCli/Arguments: tools/grpc_cli/main.cpp.
--   Log: common/log/logger.cpp; Log/DailySink: its class DailyRotatingFileSink. Metrics:
--     infrastructure/observability/metrics.cpp.
--   AppConfig and AppConfig/Loaders: common/config/app_config.cpp (LoadFlatConfig, GetOr; the
--     two loaders).
--   Storage/Redis, Storage/Mysql: infrastructure/storage/redis/redis_client.cpp and
--     infrastructure/storage/mysql/mysql_connection_pool.cpp.
--   States: the tables of shared states of the back ends (GetState, SharedStateFor), with the number of
--     the owners of each state in place of std::shared_ptr.
--   Mq and Mq/Consumer: infrastructure/mq/core. Coordination and Coordination/Clients:
--     infrastructure/coordination/impl/etcd (the methods on a state; the calls that get one).
--   Services/User, Services/Config, Services/Game: services/user_service, config_service and
--     game_service, the handlers of the *_service_impl.cpp files; Services/Answering: what gRPC hands
--     to a client. Api: api/proto.
--   Base: std::string as bytes, unordered_map, std::to_string, std::stoll and std::stoi, exceptions,
--     integers. Json: nlohmann::json. The other modules hold proofs; Tests holds examples.
--
-- How code is translated. A method that changes an object takes the state and gives it back. A
-- method that may raise has the type `Exec S A`: what was raised or returned, together with the
-- state at that moment, so that effects before an exception are kept. A mutex makes a method one
-- step; interleavings are sequences of calls. Where another request may run inside a method, while
-- an RPC or a back-off is awaited, its effect on the shared breaker is an argument of the step
-- (`others` of Gateway/Invoke).
--
-- Bounds and fuel. Every recursion is on its argument's structure, but for two. The digits of a
-- number n are computed on fuel n + 1, enough since each step divides by 10. `attempt_loop` recurs
-- on the rounds of the source's own `for`, max(1, retry_attempts) of them. Times are natural
-- numbers on a clock that is an argument, in nanoseconds. The counters of the metrics wrap at 2⁶⁴.
-- stoll and stoi raise outside their ranges. The token bucket of the source counts in `double`; the
-- model counts 10⁻⁹ of a token in natural numbers, exact for whole rates and nanoseconds. Sums of
-- the versions and ids are not taken modulo 2⁶⁴ or 2³², nor is the failure count of a breaker modulo
-- 2³².
--
-- Parameters, for code that the repository does not hold: nlohmann::json (`JsonApi`, with its
-- documented behaviour as `JsonLaws`; Tests/Encoding has an instance), OpenSSL's HMAC (`hmac`), the
-- services at the other end of a gRPC channel, what gRPC does to metadata on the way (`IsTransport`),
-- the clocks, whether spdlog can open its file, what Beast reads from a connection and whether its
-- writes succeed, what the operating system answers to a bind and to an accept, and what the benchmark
-- does with `double`. An unordered_map is traversed in the order of insertion, where the C++ container
-- leaves the order open.
--
-- Not modelled: the bytes on a socket and their timeouts (a timeout is an error of the read or
-- write); the schedule of threads within a method, except where steps say so; what other sessions do
-- to the server between the messages of one (each message has its own clocks and services); sleeps;
-- spans and the text of log lines; the connections of the benchmark; tests. They are input and
-- output, or drivers of what is modelled.
pub mod Base
pub mod AppConfig
pub mod Bench
pub mod ErrorCodes
pub mod Application
pub mod Processes
pub mod Governance
pub mod Auth
pub mod Json
pub mod Log
pub mod Context
pub mod Api
pub mod Gateway
pub mod Metrics
pub mod Mq
pub mod States
pub mod Storage
pub mod Coordination
pub mod Services
pub mod GrpcCli
pub mod Tests
