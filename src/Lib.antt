-- ===== src/Lib.antt =====
-- A model of the Go package atxp (Atendi9 Transmission Exchange Protocol). Version 2 is a client and a
-- server that exchange messages in encrypted, length-prefixed frames over a stream connection; version
-- 1 is an older protocol with a client and a server that exchange text packets.
--
-- The parts and their files. Paths of the source are from the repository's root.
--   Errors       errors_v2.go: the sentinels, and errors wrapped by fmt.Errorf.
--   Wire         v2.go: appendField and the envelopeReader; encoding/binary's big-endian integers.
--                Wire/Reader: a reader of lists without an offset, and that the envelopeReader
--                refines it. Wire/Words, Wire/Fields: what integers and fields are read back as.
--   Message      atxp.go: MT, ResponseCode, Auth, Message; the interface of box.Optional.
--   Envelope     v2.go: SerializeV2, DeserializeV2, serializeResponseV2, deserializeResponseV2.
--   Conn         v2.go: SecureConn; io.ReadFull and crypto/rand.
--   Crypto       crypto_v2.go: deriveKey, newGCMCipher, and the methods Seal and Open.
--   Frame        v2.go: writeFrame, readFrame, and the functions that send and receive with them.
--   Endpoint     v2.go: NewV2 and its options, ServerHandshake, ClientHandshake.
--   Client       client_v2.go: ClientV2.
--   Server       server_v2.go: ServerV2, its handlers, HandleConnection and Serve. Server/Spec: what a
--                connection may come to, as a transition system. Server/Concurrent: the goroutines of
--                Serve and RegisterHandler in any order, as a step relation on a pool of connections.
--   Exchange     client_v2.go and server_v2.go together: one call and the round that answers it.
--                Exchange/Dialogue: all calls on a connection, and the loop that answers them.
--                Exchange/Late: a response that comes in after its call has failed.
--   Deadlines    docs/security.md on hung connections: Conn/Deadline has which calls of a connection
--                may follow which, Conn/Runs the reads of io.ReadFull, and Conn/Guarded the rules for actions; Endpoint/Deadlines,
--                Server/Deadlines and Exchange/Deadlines have the handshakes, the server and the client.
--   Output       docs/protocol.md and docs/security.md on what goes over the wire: Frame/Output has the
--                frames and where in the random source their nonces stand, Endpoint/Output the header;
--                Server/Wire and Exchange/Nonces all that a server and a client put out.
--   Network      docs/protocol.md, "Sequence numbers": a network that may do anything but forge a frame,
--                and what HandleConnection and the calls of a client take from it; Network/Session
--                puts the two sides together for a whole connection.
--   Registry     mt_v2.go: NewMT, LookupMT, TypeToStringV2, StringToTypeV2.
--                Registry/View: the map as a quotient of the lists of entries.
--   Packet       atxp.go: TypeToString, StringToType, Serialize and Deserialize of version 1.
--   Transport    atxp.go: Receive and Send of version 1. Transport/Packets: a stream cut into packets.
--   Decimal      fmt: what `%d` prints and scans, and the spaces and newlines of Sscanf.
--   Response     atxp.go: SendResponse and ReceiveResponse of version 1.
--   PlainServer  server.go: Server, its HandleConnection, ValidateURLHandler, ValidateDocumentHandler.
--                PlainServer/Spec: what a list of packets calls for, as an inductive relation.
--   Open         atxp.go: the functions that open and close connections.
--   PlainClient  client.go: Client. PlainClient/Dialogue: its calls and HandleConnection of version 1.
--   Common       lists over native numbers, Go's int, the parser monad, Go's maps.
--   Tests        runs on concrete input, with a toy in the place of the cryptographic packages.
--
-- How the parts interact. A `ClientV2` and `HandleConnection` of a `ServerV2` first run the two sides
-- of the handshake, which gives both the same `Cipher`. After that the client sends message frames and
-- waits for a response frame each time; the server's loop receives a frame, checks its sequence
-- number, authorizes the user, calls the handler of the message type, and answers. A frame is an
-- envelope (Envelope), sealed (Crypto), behind its length (Frame).
--
-- State. Code that does I/O is a function from a `World` to a result and a `World`. A `World` holds one
-- connection and the random source. The connection is a script: the bytes that come in, in the pieces
-- in which `Read` returns them, ended by an error or the end of the stream; which writes and deadline
-- calls fail, a failing write having put out any part of its bytes; and the trace of the calls. In
-- version 2 it has all of them, each Read that io.ReadFull makes included; in version 1, whose Receive
-- reads byte by byte, it has all but the Reads. The theorems hold for every script. The clock is left out: a deadline call is in the trace with its
-- duration, and a deadline that passes is a failing read or write of the script. The methods of
-- `ClientV2` also take and return the client. The session of `HandleConnection` has its two counters
-- and a history of what was dispatched and replied, which only the theorems read.
--
-- Integers. `int` is `ℤ` (on the 64-bit platforms, where `r.off+int(n)` does not overflow), a length is
-- `ℕ`, `uint32` and `uint64` are `ℕ` with the wrap-around written out. A byte is a number below 256,
-- which is a hypothesis (`IsByte`) where it matters. Strings are their bytes.
--
-- Parameters. github.com/atendi9/box is the record `Box`: a value made by NewSome is not empty, and Get
-- gives it back. crypto/pbkdf2, crypto/aes and crypto/cipher are the record `Crypto`: keys have the
-- length asked for, GCM adds 16 bytes, what was sealed opens, and only what was sealed opens, since the
-- tag is a function of the key, the nonce and the ciphertext. Nothing is said of secrecy.
--
-- Fuel. The loop of `HandleConnection` takes fuel. Every round that goes on has taken a frame of 32
-- bytes or more from the stream, so more fuel than the stream has bytes is enough. The loop of version
-- 1 takes fuel as well; every round that goes on has taken one packet, so more fuel than there are
-- packets in the stream is enough.
--
-- Plain parts. The text packets of version 1 cannot carry every message. A message has plain parts
-- (`IsPlain`) if its data has no two newlines side by side and no "\t\tAuth:", and does not begin with
-- "Auth:" or "\tAuth:", and if its username, password and filename have no two colons side by side, no
-- colon at the end, and no newline.
--
-- Panics. Where Go panics on the bounds of a slice, Deserialize has the result `panicked`, and
-- HandleConnection of version 1 ends with `panics`, after the deferred Close.
--
-- A hostile network. The hypothesis `Unforged` is the authenticity of AES-GCM on one stream: a piece of
-- the incoming bytes that opens under the key of the connection was sealed by one of the two peers.
-- Nothing is assumed of which frames come, how often, in which order, and to which side.
--
-- Concurrency. In version 2 the goroutines of a server share the handler map alone, which a mutex guards,
-- and each round of a connection reads it once; so one round is one step, and the rounds of the
-- connections, the registrations and the accepted connections come in any order.
--
-- Not modelled: RegisterHandler of version 1 while a connection is handled, which has no mutex; handlers
-- and authorization functions with a state of their own; the byte count that Go returns beside a write
-- error; a Read that returns bytes and an error at once; the texts of the sentinels; the JavaScript implementation (atxp.js).
pub mod Client
pub mod Common
pub mod Conn
pub mod Crypto
pub mod Decimal
pub mod Endpoint
pub mod Envelope
pub mod Errors
pub mod Exchange
pub mod Frame
pub mod Message
pub mod Network
pub mod Open
pub mod Packet
pub mod PlainClient
pub mod PlainServer
pub mod Registry
pub mod Response
pub mod Server
pub mod Tests
pub mod Transport
pub mod Wire
