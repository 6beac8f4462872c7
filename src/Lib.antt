-- ===== src/Lib.antt =====
-- soju, an IRC bouncer: a model of its core, and what was proved of it.
--
-- A user's upstream connections talk to IRC servers, the downstream connections to the user's
-- clients, and the service takes commands in messages to itself. Strings are lists of bytes, but for
-- Service, where they are lists of runes. A Go map is an association list (Prelude/Maps): a write
-- replaces in place or adds at the end, so that one order of Go's iteration, which is open, is fixed.
-- Code that changes a value in place returns the new value; a panic is `none`, and an error a value.
--
--   Prelude        Boolean tests, lists, maps, the functions of package strings, sorting.
--   Irc            messages of the IRC library, as far as they are read and built.
--   Xirc           xirc/: Caps is caps.go (CapRegistry), CaseMapping and CaseMappingMap are
--                  casemapping.go, Membership is the ranks of xirc.go, GenMsg is genmsg.go (the
--                  functions GenerateX are generate_x), Whox is whox.go.
--   Msgstore       msgstore/: MsgId is formatMsgID and ParseMsgID of msgstore.go; Ring is
--                  messageRingBuffer and Memory is memoryMessageStore of memory.go.
--   Upstream       upstream.go. State is upstreamConn with its channels and batches, Users the cache
--                  of users; Dispatch is handleMessage, with its cases in Kinds, and calls the
--                  handlers of Members (JOIN, PART, KICK, QUIT, NICK), Channels (topics and modes),
--                  Names, Replies (to commands of clients), Isupport, Registration (register and
--                  CAP), Sasl, Account (accounts, hosts, AWAY), Watch (INVITE, MONITOR), Text
--                  (PRIVMSG and its kin, with isHighlight of irc.go in Highlight) and Handle (the
--                  welcome, errors, BATCH). Produce is appendLog, produce and the forwarding;
--                  Monitor is updateMonitor; Cached is getCachedWHO; Life is runUntilRegistered,
--                  updateAway, tryRegainNick, abortPendingCommands and handleUpstreamDisconnected
--                  of user.go; Detach is detach and deleteChannel of user.go. Pending is the queue
--                  of commands and Labels is parseLabel, with the label that SendMessageLabeled
--                  sets. Members/Roster holds a plain account of who is on which channel.
--   Downstream     downstream.go: Sasl is handleAuthenticate; Send is SendMessage, FlushBatch and
--                  SendBatch, with isNumeric of irc.go and the steps of a handler, its child
--                  Handled is handleMessage; Ping is
--                  sendMessageWithID, handlePong and ackMsgID.
--   Modes          User is userModes and Channel is applyChannelModes and channelModes of irc.go;
--                  Prefixes is its formatMemberPrefix and parseMembershipPrefix of upstream.go.
--   Service        service.go: Words is splitWords, Commands is Get of serviceCommandSet.
--   Database       the records and defaults of database/database.go; Ansi is database/utils.go.
--   User           user.go: Delivered is deliveredStore, Networks is addNetwork, removeNetwork,
--                  checkNetwork and createNetwork, its child Update is updateNetwork and
--                  deleteNetwork. A pointer to a network is the number of the object.
--   Rate           rate.go, the back-off.
--   Tests          the theorems at concrete inputs.
--
-- A handler of Upstream takes the connection and what it reads of its network (Network), and returns
-- the connection, changed in place also on an error, with the error. Whatever it does to others, the
-- server, the clients, the store and the timers, is added to the outputs of the connection in order.
-- What belongs to the network and is changed, the saved channels, the receipts and the case mapping,
-- stands with its connection.
--
-- Messages that Xirc generates are what Downstream reads: the SASL chunks of GenerateSASL are put
-- together by handleAuthenticate. Modes changes the members of a channel through CaseMappingMap and
-- Membership, and the store in memory is built on Ring and MsgId.
--
-- Numbers: sequence numbers are 64-bit and wrap around; a theorem that counts messages asks that the
-- counter stays below that; the back-off counts with signed numbers of 64 bits. Times are
-- nanoseconds. A loop over a slice by an index is a recursion on the list; sasl_from and
-- isupport_from run on fuel, one more than the length of what they cut, and the theorems on
-- generate_sasl and generate_isupport show that it is enough; highlight_from runs on one more than
-- the length of the text, and the theorem on is_highlight shows that the search ends;
-- digits_from runs on one more than the number that it writes, and the theorem on label_tag shows
-- that all digits are written.
--
-- Parameters: base64, the BARE codec and the SASL servers of their libraries, the printing of a
-- message by the IRC library (`render`), the parsing of URLs, the answers of the database and the
-- random number of the back-off, irc.ParsePrefix, the SASL client, the classes of package unicode, and
-- the last message of a target. IsBase64, IsCodec and GivesFreshId say what of them is relied on:
-- decoding undoes encoding, base64 pads to a multiple of four characters, and the id of a new row is
-- not 0 and not that of another network.
--
-- Not modelled: sockets and goroutines; SQL drivers, files, HTTP and PAM; configuration; the entry
-- points and the import tools; the labels and batches that a handler of the server's messages passes
-- to the clients by its context, the time tags, and the delays of Web Push; that messages share the
-- map of their tags; the panic of SendMessageLabeled on a label that is used twice; and as yet the handlers of messages of downstream connections, but for SASL.
-- Case conversion is that of ASCII.
pub mod Prelude
pub mod Xirc
pub mod Irc
pub mod Downstream
pub mod Msgstore
pub mod Upstream
pub mod Modes
pub mod Service
pub mod Tests
pub mod Database
pub mod User
pub mod Rate
