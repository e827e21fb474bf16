-- ===== src/Lib.antt =====
-- Verification of iyell, a bot that forwards messages to IRC channels.
--
-- The daemon iyelld (src/iyelld) is one event loop over sockets and timers. Clients (src/iyell) send
-- it lines `type:timestamp:message` over UDP or a Unix socket, syslogd sends it RFC 3164 packets, and
-- the IRC server sends it lines. It writes lines for the server to one output buffer, registers
-- timers, sends datagrams to other bots and writes to hook programs, of which src/quotes is one.
--
-- What the daemon keeps in globals is the record `Daemon` of Daemon.antt, with a field for each flag
-- of `g_mode`, the configuration `g_conf`, the statistics, the two buffers `ircin` and `ircout` of the
-- server, the registered timers, and what was sent to other bots. A handler takes a `Daemon` and gives
-- the next one, in `Run` (Base/Outcome.antt) where the C code can fail: a null pointer, an access out
-- of bounds, a read of freed memory, an assertion, a division by zero and a signed overflow each are a
-- `fault`.
--
-- A `char *` is the list of its bytes before the zero (CString.antt), NULL is `none`, and a
-- function that writes zeros into a string, as `strsep` and `strtok` do, gives the pieces. Numbers are
-- natural numbers; a cut to a machine width is written out.
--
-- Which file models which code:
--   Daemon, Daemon/Sched   include/main.h, include/stats.h, iyelld/sched.c
--   Conf                   include/conf.h and the readers of iyelld/hash+.c
--   HashText               iyelld/hash+.c: hash_text_insert and hash_text_delete
--   ConfIni, ConfIni/File  iyelld/conf_ini.c: reading and writing the configuration file
--   Irc                    iyelld/irc.c: the commands to the server
--   Switch                 iyelld/irc.c: the lines of the server and their handlers
--   Misc                   iyelld/misc.c: the temporary nickname
--   Command, CommandText   iyelld/cmd.c: the commands of users
--   Ctcp                   iyelld/ctcp.c
--   Info, Transmit         iyelld/info.c: the clients' messages, and those to other bots
--   Syslog, SyslogParse    iyelld/rfc3164.c: where a message goes, and how a packet is read
--   Hup                    iyelld/hup.c, and init_flags of iyelld/init.c
--   Hooks, Hooks/Commands  iyelld/hooks.c: the list of hooks, what is written to them and read;
--                          commands that start hooks
--   Quotes                 quotes/cmd.c: the parsing and the dispatch of commands
--   Quotes/Db              quotes/db.c: the queries
--   Quotes/Replies, /Run   quotes/cmd.c and quotes/io.c: callbacks, commands and answers
--   Quotes/Timers          quotes/main.c: the timers
--   Network                iyelld/network.c: the output, its throttling, disconnecting, reconnecting
--   Network/Server         iyelld/network.c: the events of the connection, and the last QUIT
--   Listener               iyelld/network.c: the listeners, and dgram_parse of iyelld/info.c
--   Client                 iyell/main.c and iyell/opt.c: the client's program
--   Start                  iyelld/conf.c, init of iyelld/init.c and iyelld/stats.c
--   Signal                 iyelld/signal.c: the handlers that change the mode
-- (paths below src/ of the repository). Number has the number formats of the C library, Base the
-- shared names, and Tests the instances and the examples. A module's children hold its proofs.
--
-- Code that is not the repository's own is a parameter. The byte buffers of libevent are the interface
-- `EvBuffer` (Event.antt) and the hash table, which the program copies, the interface `HashTable`
-- (HashText.antt), each with its documented behaviour as laws; Tests/Buffer.antt and Tests/Table.antt
-- are instances. The clock, the registration of timers, RC4, sockets, localtime, strftime and uname
-- answer by the record `Env` of the state; the answers of `send`, of `irc_connect` and of the SSL
-- handshake are arguments. SQLite is the interface `Sqlite` (Quotes/Db.antt), with what is
-- documented of `%q` as laws, and the client's system the record `Host` (Client.antt); whether a hook's
-- process can be started is a `Launcher` (Hooks/Commands.antt).
--
-- Loops are structural recursion on what they walk, but for the loops that read lines from a
-- buffer, `parse_lines`, `irc_lines` and `run_lines`: these have fuel, the length of the buffer at the
-- start, and each round takes a line off it. `tokens` and `split_data` count the rounds that the source
-- allows, and `decimal_onto` has the number that it prints as fuel, which has fewer digits.
--
-- Not modelled: the processes, pipes and signals of hooks, the calls that open sockets, the main
-- loops, SSL, logging, the options of the daemon and of quotes, the failure of memory allocation at
-- the start, and the database behind SQLite.
pub mod Base
pub mod CString
pub mod Event
pub mod Conf
pub mod Daemon
pub mod Irc
pub mod Number
pub mod Transmit
pub mod Info
pub mod Syslog
pub mod SyslogParse
pub mod Hup
pub mod Hooks
pub mod Quotes
pub mod CommandText
pub mod Command
pub mod Ctcp
pub mod Misc
pub mod Listener
pub mod Client
pub mod Start
pub mod Switch
pub mod Network
pub mod Signal
pub mod HashText
pub mod ConfIni
pub mod Tests
