-- ===== src/Lib.antt =====
-- Twili is a debug monitor for a games console: a service on the console (twili/), a daemon on the
-- host (twib/daemon/) and a command line tool (twib/tool/), which talk over sockets and USB. This
-- library models parts of it, as functions that compute, with what is proved of them.
--
-- - Base: the libraries' names that all modules share, lists cut and overwritten by native numbers,
--   machine words and bits.
-- - Buffer: common/Buffer.hpp and Buffer.cpp, the byte buffer that every connection reads from and
--   writes to. A buffer is its vector, the two heads and the limit; `write`, `read`, `reserve`,
--   `mark_read` and the others are the member functions of those names. Buffer/Queue says what is
--   promised, a FIFO of bytes under a limit, and Buffer/Trace has the clients' sequences of calls.
-- - Protocol: common/Protocol.hpp, the header of a message.
-- - MessageConnection: twib/common/MessageConnection.cpp and .hpp, with SignalRead and
--   SignalWrite of SocketMessageConnection.cpp, over Buffer: the messages between the tool, the
--   daemon and the console. `process` is Process, `body` one turn of its loop by the stages header, payload and
--   object ids, and `send_message` is SendMessage. MessageConnection/Parse is the protocol as a
--   parse of bytes.
-- - TcpConnection: twili/bridge/tcp/Connection.cpp, where the console takes commands off a TCP
--   connection. `turn` is one turn of the loop of Process, and the calls of Synchronize are events.
-- - TcpCommand: the same file's Synchronized and BeginProcessingCommandImpl, the main thread's part
--   of these commands; TcpCommand/Tables has what is promised of them.
-- - Responses: twili/bridge/ResponseOpener, ResponseWriter, Packing and the ResponseState of
--   bridge/usb and bridge/tcp, the responses of the console. `respond_ok` is RespondOk with its
--   arguments as a list, `begin_error`, `pack` and `finalize` are its parts; what the two kinds of
--   bridge differ in is a Transport. Responses/Message joins them to the parse of MessageConnection.
-- - UsbReader, UsbCompletion: twili/bridge/usb/RequestReader.cpp, where the console takes commands
--   off USB. UsbReader has the command (`begin_processing_command`, `go_on`, `finalize_command`) and
--   the buffers that are posted, UsbCompletion the completions of the transfers.
-- - Process: twili/process/MonitoredProcess.cpp and TrackedProcess.cpp, the states of a process that
--   the console launches. `change_state` is TrackedProcessBase::ChangeState over that of
--   MonitoredProcess; `launch`, `terminate`, `kill`, `continue`, `attach` and `wait_to_start` are the
--   functions of those names.
-- - ShellTracker: twili/process/ShellTracker.cpp, the queue of processes to launch, over Process.
-- - AppletTracker: twili/process/AppletTracker.cpp, the same for applets, with its monitor. `notify`
--   is what a change of a process's state is told to; `queue_applet`, `pop_applet`, `attach_applet`
--   and `release_control_process` are QueueLaunch, PopQueuedProcess, AttachHostProcess and
--   ReleaseControlProcess.
-- - Pipe: twili/TwibPipe.hpp and TwibPipe.cpp, the pipe behind a process's standard streams, over
--   Buffer. `read`, `write`, `close_reader` and `close_writer` are its functions; `flush` and
--   `settle` are FlushWritePendingState with ExitWritePendingState. `read_calling` is Read with the
--   calls that write callbacks make in it.
-- - Gdb: twib/tool/GdbConnection.cpp. Gdb/Hex has Encode and Decode, Gdb/Connection has Process
--   (`turn` is one turn of its loop) and Respond (`frame` and `write_out`).
-- - Client: twib/tool/Client.cpp, the requests of the tool that wait for their responses. The map is
--   a list in the order of the tags; `send_request`, `post_response` and `fail_all_requests` are
--   the functions of those names.
-- - Messages, Daemon, MetaInterface, Dispatch: twib/daemon/Daemon.cpp with Messages, LocalClient and
--   BridgeObject, which passes requests and responses between clients and devices. Messages has the
--   requests and responses, Daemon the state with the calls that add and remove clients and devices,
--   MetaInterface the requests that the daemon answers itself, and Dispatch the function Process.
--   Dispatch/Steps is the daemon among its frontends and backends.
-- - TcpDevice: the class Device of twib/daemon/TCPBackend.cpp, a console that the daemon has a TCP
--   connection to. `incoming_message` and `send_to_device` are IncomingMessage and SendRequest;
--   TcpDevice/Arrives joins them to Responses and to TcpConnection.
-- - Transmutation: twili/process/fs/TransmutationFile.cpp, a file put together from segments;
--   Transmutation/Nso, NSOTransmutationFile.cpp, an NSO image with its header byte for byte;
--   Transmutation/Nro, NRONSOTransmutationFile.cpp, which makes one from an NRO file.
--
-- Numbers are natural numbers; `size_t` and `uint64_t` wrap at 2^64 where the code computes with
-- them, `uint32_t` and `uint8_t` at 2^32 and 2^8. Hypotheses bound sizes by 2^63, which no vector
-- exceeds. Loops are recursion on the bytes, segments or answers that are left. The one loop that
-- need not end, Respond's calls of write(2), runs over a list of answers, and as many as there are
-- bytes are enough. The loop of MessageConnection::Process has the bytes and the pieces of the
-- input as its fuel, and one turn more, which is enough since every turn but the last receives a
-- byte or ends a piece. The fuel of the TCP
-- connection's `process` is an argument: TcpConnection/Commands says how much is enough, and
-- TcpConnection/Partial when none is. The monitor of AppletTracker is told to a depth of two: a
-- change that it is told of may kill hbmenu, of which it has forgotten itself, so the depth is enough.
--
-- Read callbacks of a pipe are functions of the bytes offered that may also close the pipe; as the
-- code asks, they call neither Read nor Write. A file behind a segment is any function of offset and
-- size: FileServes says what is relied on, that a read in range succeeds with the file's bytes. The
-- random numbers of the daemon are a stream: AddClient's loop has the number of its draws as fuel,
-- and Daemon/Clients says that enough of it is given where an unused number comes. What msgpack11,
-- the network and the system say is a parameter. A pointer is an address of a memory, in which an
-- object that has been destroyed is missing; the use of a null pointer is a result of its own.
--
-- Not modelled: logs, threads and locks, the event loops, calls of the operating system and of the
-- console's services, the frontends of the daemon and its backends but for TcpDevice, the unpacking
-- of requests and the command line tool.
pub mod Base
pub mod Buffer
pub mod Protocol
pub mod MessageConnection
pub mod TcpConnection
pub mod Responses
pub mod UsbReader
pub mod UsbCompletion
pub mod TcpCommand
pub mod Process
pub mod ShellTracker
pub mod AppletTracker
pub mod Pipe
pub mod Gdb
pub mod Client
pub mod Messages
pub mod Daemon
pub mod MetaInterface
pub mod Dispatch
pub mod TcpDevice
pub mod Transmutation
