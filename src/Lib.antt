-- ===== src/Lib.antt =====
-- amber-store-iroh moves content-addressed trees between stores over QUIC streams. A server owns a store of
-- objects and a store of references; clients push a tree and point a reference at it, or pull the tree of a
-- reference. This library models the program from the bytes of a frame up to whole operations.
--
-- The parts and where they are modelled:
--
-- Protocol: protocol/protocol.go and protocol/pack.go. Protocol/Msg has the message types and `Msg`;
-- Protocol/Error Go's errors and what errors.As and errors.Is find in them; Protocol/Stream an io.ReadWriter,
-- as the bytes that the peer will have sent, the error behind them, the bytes written and the room left;
-- Protocol/Frame `WriteMsg` (write_msg) and `ReadMsg` (read_msg); Protocol/Pack chunkWriter, SendPackRecords
-- (send_pack) and packReader (read, drain).
--
-- Wantsync: wantsync/wantsync.go. Keys, Wants and Deal have the helpers (splitWants, encodeKeys, decodeKeys,
-- dedupeKeys, checkDelivered; Wants; shardWants, dealWants), Send the function `Send` (send), Receive the
-- function `Receive` (receive). A transfer is a sequence of rounds: Receive sends TWants frames on its
-- channels, the Send at the other end of each answers with one pack, and Receive stores what came and goes on
-- with the children.
--
-- Server: server/server.go. World has the state that handlers share, Transfers the map of tokens (create,
-- attach, gather, drop_token), Refs handleRefList, handlePin and checkCAS, Channels shardChannels and the
-- release of the channels, Push handlePush, Pull handlePull, Handle HandleStream (handle_stream), Locks the
-- handlers in lockRef and Accept Serve with serveConn, each as a relation of steps, Attach the attach and drop
-- of one token by their smaller steps, Setup New and the setters. A handler takes the session, its stream and
-- the world, and returns the error and the session that it leaves.
--
-- Client: cmd/amber. Spec has resolveSpec and descend of spec.go, Extras attachExtras and connsFlag of
-- dial.go, Push runPush, runSenders and pushError of push.go, Pull runPull of pull.go, each behind the opening
-- of the store and of the stream. Dial has the rest of dial.go: raceConnect and serverConn (Dial), dialServer
-- (Dial/Discover), the loop of attachExtras over connections (Dial/Attach); what it does to endpoints and
-- connections is a log, and Dial/Session is a command from dialing to Close. Store has store.go, Refs ref.go
-- and refs.go, Ls ls.go, Import import.go and chunk.go (what is opened and closed is a log), Export export.go
-- and restore.go, Progress progress.go, Xfer xfer.go.
--
-- Serve: cmd/amber-serve. Addrs has addrs.go, which addresses the server advertises; Key has
-- loadOrCreateSecretKey of main.go, Main the action; Main/Early is about its return where a data endpoint
-- cannot be bound. Relay: relaymode/relaymode.go, and serverRelayMode of cmd/amber-serve/main.go.
--
-- Prelude has the shared helpers; Tests applies the theorems to concrete inputs over a small instance of the
-- parameters.
--
-- Parameters. What the program takes from other repositories is a parameter, with what is assumed of it as
-- named hypotheses: CBOR (`Codec`; `ReadsBack`, `ReadsPacks`), keys, the object store, the pack format and
-- float64 (`Library`; `StoreLaws`, `EmptyPack`, `ParsesBack`), references (`RefLibrary`; `RefLaws`), strings
-- and hex (`Texts`), IP addresses (`NetLibrary`), go-iroh (`Iroh`, `Discovery`, `RelayLibrary`), opening a
-- store (`Openings`), listing (`Listing`; `Pages`), ingest (`Ingest`), tar files (`Tar`), secret keys
-- (`KeyLibrary`), the packages that the server's command starts (`Host`), floating point and formats
-- (`Display`). The order in which concurrent decoders deliver is the parameter `merge`, what other handlers do
-- during an operation is `others` of `Surroundings`, and what happens while gather waits is its list of
-- events.
--
-- Fuel. The loops of Send, Receive and the pack reader run on fuel: one round for each byte of input and one
-- more (two for the reader), since a round that goes on has read a byte. The loop of chunkWriter.Write runs on
-- as much fuel as it has bytes. The loop of runLs takes one page for each entry and one more, since a page
-- that has others behind it is not empty, and the loop of humanBytes seven rounds, since each divides a 64-bit
-- number by 1024.
--
-- Not modelled: the mDNS listener, flags, logging, the facade amberiroh, which forwards to the packages, and
-- wrap-around of the 64-bit counters in wantsync. The handlers take an attach of a data stream as one step,
-- which Attach takes apart; the late connections of a race are closed in one step. Streams are finite: a peer
-- that stays silent forever is a stream whose input ends with an error.
pub mod Prelude
pub mod Protocol
pub mod Wantsync
pub mod Server
pub mod Relay
pub mod Client
pub mod Serve
pub mod Tests
