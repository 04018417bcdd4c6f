-- ===== src/Lib.antt =====
-- EmbDebug is a GDB server: a debugger talks the GDB Remote Serial Protocol to it over a
-- connection, and it drives a target, which is a set of cores, on the debugger's behalf. The files
-- here model its components over the native numbers; each function that the source calls is a
-- function here, by clauses, that can be run.
--
-- The parts, from the wire upwards (paths are those of the repository):
--  * Connection: lib/server/AbstractConnection.cpp. `getPkt` is get_pkt, `putPkt` is put_pkt,
--    `haveBreak` is have_break. The state `Conn` has the members of the class, and the other side of
--    the line as a script: the characters that arrive, and how many more it takes. An operation is a
--    function from a state to an outcome: a fault such as a failed `assert`, or a result that is
--    missing after a communications failure, and the new state. Monad holds the state and the
--    sequencing, Reads and Writes the rules for single characters and for texts, the files below
--    them the packets.
--  * Stream: lib/server/StreamConnection.cpp, single characters on the standard streams, with the calls
--    of the operating system as parameters.
--  * Socket: lib/server/RspConnectionUnix.cpp and RspConnectionWin32.cpp, the connection over a socket:
--    how it gets a client, and single characters, with the calls of the operating system as parameters.
--  * Hex, Escape and Strings: lib/server/Utils.cpp and include/embdebug/ByteView.h, conversions,
--    unescaping, and the cutting of strings. Bits has the facts on masks and shifts that they need.
--  * Packet: lib/server/RspPacket.cpp, the builder and the encoded strings. Packet/Memory has the
--    buffers of packets in a heap, and the files below it compare packets with plain values.
--  * Ptid: lib/server/Ptid.cpp, process and thread identifiers, and their text. Uses Hex.
--  * VCont: lib/server/VContActions.cpp, the actions of a resume request. Uses Strings and Ptid.
--  * SyscallReply: lib/server/SyscallReplyPacket.h, the answer to a system call, with `strtol`.
--  * Cores: class CoreManager of lib/server/GdbServer.h, and `getNextStopEvent` of
--    lib/server/GdbServer.cpp.
--  * Target: include/embdebug/ITarget.h, lib/targetsupport/ITarget.cpp and
--    targets/emptytarget/emptytarget.cpp. Target/Access has the operations of a target, a record over
--    an abstract state; Target/Empty is the target that does nothing.
--  * Server: lib/server/GdbServer.cpp. Server/State has the members as a record, the interfaces that
--    the server is built on, which are the target, the connection and the clock, and the sequencing
--    of the handlers, each a function from a server to an outcome. Registers, Access (memory), Syscall,
--    Run (`doCoreActions`), Resume (system call replies, vCont, vKill), Query, Monitor and Settings
--    have the handlers, Dispatch the switch of `rspClientRequest`, Loop the constructor and
--    `rspServer`. Scan has what `sscanf` does for them. The member `replies` is no member of the class:
--    it is the history of the packets for `putPkt`, about which theorems speak. Answers counts what
--    each handler puts, by rules that follow the sequencing; Memory, Store, Assign, Threads, Chunks,
--    Waiting, Pending, Flags, Shown, Timed and Kill are about single requests.
--  * Server/Wire: AbstractConnection as the connection of the server, so that a request and its reply
--    can be followed from one end of the wire to the other.
--  * Init: lib/server/Init.cpp, the choice of the connection and the start of the server. Its two
--    connections are parameters with the interface that the server uses.
--  * Driver: tools/driver/Driver.cpp, from the parsed command line to the start. Driver/Load has the
--    loading of the target and `main`. cxxopts and the calls that load a library are parameters.
--  * Trace: lib/server/TraceFlags.cpp, the trace flags. A `std::map` is a list in the order of keys.
--  * Timeout: lib/server/Timeout.cpp. The clock, its durations and the target's cycle counter are
--    parameters.
--  * Base: the shared names, Boolean tests, lists, the `int` of C (Base/Int), and outcomes
--    (Base/Outcome). Tests: the theorems at concrete inputs.
--
-- Machine integers keep their wrap-around: an `unsigned char` is taken modulo 256, an `unsigned int`
-- modulo 2 ^ 32, a `size_t` or `uint64_t` modulo 2 ^ 64; a `char` is signed. A C string is the list
-- of its characters in front of the NUL, and a read behind its end gives NUL.
--
-- Loops that read are recursions on fuel. `getPkt` and `putPkt` have one unit more than the
-- characters that can still come, since every round of every loop reads a character; `split` has one
-- more than the length of the string, since every token has a character; a 64-bit value has 16 hex
-- digits. The loops of the server that wait for the target, for the NUL of a text in its memory or
-- for a request take the bound of the environment. Fuel that runs out is a fault of its own, no_fuel.
--
-- Not modelled: trace output, warnings and other messages, the text of the help, and what `echo` writes
-- on the console of the server; the map of the matchpoints, which nothing reads or writes; the buffer of
-- a builder; `CreateFormatted`, which is a call of
-- `vsnprintf` (each text that it makes is shorter than its bound); the calls of the operating system,
-- of cxxopts and of the loader of libraries; the vendored googletest and cxxopts.
pub mod Base
pub mod Bits
pub mod Connection
pub mod Cores
pub mod Driver
pub mod Escape
pub mod Hex
pub mod Init
pub mod Packet
pub mod Ptid
pub mod Server
pub mod Socket
pub mod Stream
pub mod Strings
pub mod SyscallReply
pub mod Target
pub mod Tests
pub mod Timeout
pub mod Trace
pub mod VCont
