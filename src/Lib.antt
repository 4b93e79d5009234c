-- ===== src/Lib.antt =====
-- The Named WebSockets proxy of the Mediascape discovery stack. A process serves WebSockets under
-- names: the peers of a name hear what any of them broadcasts, controllers hear which peers there are
-- and send direct messages, and the proxies of two machines relay both for the names of scope
-- "network", which they advertise and find by mDNS.
--
-- The sources stand in complements/namedwebsockets-proxy/src/github.com/: the files named here without
-- a directory in namedwebsockets/namedwebsockets/, the others in richtr/mdns/ and
-- namedwebsockets/cmd/namedwebsockets/.
--   Env, Model, Step, Chan  what the program takes from outside; the types of peer.go, control.go,
--                           proxy.go and socket.go; statements as functions on a state, with panics
--                           and log.Fatal as results; Go's buffered channel with its parked senders
--   Sends                   the `send` methods, what a read returns, and notifications
--   Peer, Control, Proxy    peer.go, control.go, proxy.go: addConnection, removeConnection, one round
--                           of readConnectionPump (handle), the loop over what the reads return, and
--                           one tick of writeConnectionPump
--   Socket                  socket.go: NewNamedWebSocket, serveService, serveControl, the dispatcher
--   Live                    sockets none of whose connections is nil
--   Network                 two machines that share a link: what one writes, the other reads; Channel has
--                           their goroutines in any order, and the frames that are in flight
--   System                  the goroutines of a socket, interleaved, and the states they reach
--   Regex                   the regular expressions of package regexp, and what it is to match one
--   Service                 service.go: the map from paths to sockets, serveWSCreator, and the routes
--   Process                 requests, the browser, advertisements and the goroutines of all sockets, in any
--                           order
--   Discovery               discovery.go: Register, and the entries of Browse
--   Mdns                    richtr/mdns, as patched here: zone.go (Zone), server.go (Server), client.go
--                           (Client), and what a client makes of a server's answers
--   Start                   run.go
--   Base                    shared helpers: lists over native numbers, Go strings, decimals
--   Tests                   runs of the theorems on concrete data
--
-- Conventions. A Go string is the list of its bytes, and strings.ToLower and TrimSpace are those of
-- ASCII. A Go `int` that is only compared is its 64-bit pattern; strconv.Atoi and %d are modelled with
-- the 64-bit range, and %d by 64 rounds of division, enough below 2 ^ 64. A pointer to a connection of
-- gorilla/websocket is a number, nil is `none`, and using nil is a panic. A panic in a pump or in the
-- browser ends the process; net/http recovers one in a request handler, after which the model says
-- nothing. What leaves the process is a list of effects, in order.
--
-- The step relation of System takes one round of a pump, one handler and one round of the
-- dispatcher as atomic. The source uses no lock, so a data race inside such a block is not modelled.
-- A pump that waits on a full channel may read on in the relation, which adds interleavings. Every
-- connection that joins in it is one whose upgrade or dial succeeded: what becomes of a nil one, which
-- the handlers add after a failed upgrade, is in Socket/Upgrade. The write pumps' loops have no exit
-- in the source, so no step ends one. The dispatcher's loop is taken in rounds; it waits where nothing is queued.
--
-- A DNS message is the list of its records or questions. An entry that the client delivers is the
-- value of the entry at that time; the source hands over a pointer to it.
--
-- Not modelled: the times of deadlines, tickers and timeouts (a read may fail at any point, and does for a
-- message over the read limit of 4096 bytes), logging,
-- the headers and bodies of HTTP answers (an answer is the call of http.Error, of which only the first
-- in a request sets the status), the console's page, and the libraries: encoding/json, the WebSocket
-- upgrade, with the answer it gives by itself where it fails, and dialer, the DNS wire format and the
-- order of a range over a map are parameters, encoding/json and the range with their documented behaviour as the
-- hypothesis IsEnv, and so are the choice of a route by net/http, as the hypothesis IsMux, and the
-- packing of DNS replies of at most 16 answers that fit the wire format, as the hypothesis IsWire
-- (Mdns/Wire): miekg/dns refuses other names and texts, and then nothing is sent.
mod Base
pub mod Chan
pub mod Env
pub mod Model
pub mod Step
pub mod Sends
pub mod Control
pub mod Peer
pub mod Proxy
pub mod Socket
pub mod Live
pub mod Network
pub mod System
pub mod Regex
pub mod Service
pub mod Discovery
pub mod Mdns
pub mod Start
pub mod Process
pub mod Tests
