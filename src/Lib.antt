-- ===== src/Lib.antt =====
-- gboost-rpc: protobuf services over one TCP connection per client, on boost::asio. A client numbers
-- its calls and keeps a session for each until the response with that number arrives; a server
-- hands a request to the service that the metadata name, and sends the response back with the
-- request's number. Both sides write and read messages through channels, which run in the loop of
-- a dispatcher, one handler at a time.
--
-- Where each part is:
--   * Protocol: rpc/detail/protocol/rpc.proto with the generated class RPCMetaData, and the calls of
--     the protobuf runtime, a parameter (the record Protobuf) with what the runtime documents (the
--     record IsProtobuf). Protocol/Wire has the methods of rpc/detail/protocol/rpc.pb.cc that write,
--     measure and copy RPCMetaData, over the runtime's functions for one number (WireFormat), and
--     Protocol/Parse the method that reads it, over the runtime's stream (CodedInput).
--     Protocol/Runtime fills the record IsProtobuf from these methods, and Protocol/Message is the
--     class itself, with its members, the bits of `_has_bits_` and Swap. RPCMetaData elsewhere is the
--     record Meta, of the values that an object of the class stands for.
--   * RpcData: rpc/detail/rpc_data.h and .cc, one message on the wire. `AppendBinaries` is
--     `append_binaries`, in four parts; RpcData/Phases has the frames of which a stream consists.
--   * Heap: the RPCData objects that pointers name.
--   * RpcChannel: rpc/detail/rpc_channel.h and .cc, the reading half, and RpcChannel/Write the
--     sending half, with rpc/detail/server_rpc_channel.cc. A handler returns the new state and the
--     list of what it sets off: calls of the receiver and of the cancellation, and operations that
--     are started on the socket.
--   * Session: rpc/detail/client_session.h and .cc, with GetServiceID of rpc/detail/helper.h.
--   * Client: rpc/detail/client_rpc_channel.h and .cc, and the calls and responses of
--     rpc/detail/rpc_client_impl.cc. Client/History has the steps of a client in any order, Client/Desk
--     an abstract view of it: calls that wait, without a channel and without objects.
--     Client/Connecting has the first connect, Client/Creating CreateRPCClient.
--   * Callback: rpc/callback.h, the closures of the calls, and CancellableWait.
--   * Dispatcher: rpc/detail/network_dispatcher.h and .cc, and rpc/detail/ref_count.h. Dispatcher/Life
--     has the lines of Loop, RunOnce, Stop and AsyncStop as steps of threads, Dispatcher/Lifetime the
--     pointers to channels, in any order, and Dispatcher/Posting the handlers that are posted, which
--     Dispatcher/Posting/Running has the loop run.
--   * Destroy: the destructors of RPCChannel (rpc/detail/rpc_channel.cc) and of SessionManager
--     (rpc/detail/client_session.cc), over the helpers of rpc/detail/util.h.
--   * Server: rpc/detail/rpc_server_impl.h and .cc; Server/Running has the constructor, Init, Run and Stop,
--     Server/Creating CreateRPCServer and the destructor.
--   * Exchange: a whole call, over the client and the server. Pipeline: many calls at once over one
--     connection.
--   * Event: rpc/sync_event.h and rpc/atomic_event.h, with the steps of the threads that wait, and
--     rpc/sem_event.h, over the calls of the system on semaphores, which are a parameter.
--   * Util: `ConvertToStringFrom` and `SleepInSeconds` of rpc/detail/util.h.
--   * Base: shared names and lemmas; Base/Assoc is `std::map`, Base/Results the results of code that
--     may stop the process.
--   * Examples: runs on small inputs, over a small codec.
--
-- State is passed explicitly. A glog CHECK that fails, an exception, and the use of a deleted or
-- null pointer are the result `fatal`. The loop of `ReadInLoop` runs on fuel, the number of the
-- bytes of the read, and `stuck` is the result of running out of it: each round takes a byte at
-- least. The parser of the metadata runs on one more than the bytes of the stream, for the same
-- reason. Numbers are plain, and wrap where the code lets them: sequence numbers at 2 ^ 64, the size
-- of a buffer and the value of an AtomicEvent at 2 ^ 32. The int32 of a SyncEvent that overflows is
-- `fatal`; other sizes stand behind checks or are bounded by the read buffer.
--
-- Not modelled: boost::asio, of which the model has the handlers, and of the loop that `run` returns
-- without a handler, kept work and outstanding operations; the timers of the first connect, which never close a socket, since each is destroyed in the block
-- that makes it; logging; CityHash32, a parameter; the descriptors and the reflection
-- of the generated class, tables that the library does not read; the benchmark and the tests.
pub mod Base
pub mod Protocol
pub mod RpcData
pub mod Heap
pub mod RpcChannel
pub mod Session
pub mod Client
pub mod Dispatcher
pub mod Server
pub mod Exchange
pub mod Event
pub mod Util
pub mod Examples
pub mod Destroy
pub mod Callback
pub mod Pipeline
