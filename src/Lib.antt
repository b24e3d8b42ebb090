-- ===== src/Lib.antt =====
-- Bondify: a tunnel that bonds several network paths (BOND/1). A client and a relay seal IP packets
-- into DATA packets, send each on a path that a scheduler picks, and put them in order again at the
-- other end. This library models the parts that decide what is sent, accepted and delivered.
--
-- The parts and the files that model them (paths from the repository's root):
--
--   Common      shared helpers: tests and conditionals, lists, integers and int64 wrap-around, bytes
--               and big-endian numbers, bits, association lists for Go maps, results, float64
--   Proto       core/proto/proto.go: the outer, inner and FEC headers and their flags
--   Crypto      core/crypto: Replay is replay.go (the bitset window), Session is session.go (nonces,
--               Seal, Open), Handshake is handshake.go over the Noise library
--   Reorder     core/reorder/buffer.go: Heap is container/heap on gsnHeap, Reorder the methods of
--               Buffer, Run the histories of a buffer
--   Sched       core/sched: sched.go with round robin; Goodput, MinRtt and HolAware are the tiers 2
--               to 4, Ties the set of paths tied for fastest, Tiers the choice of one by its name
--   Pool        core/bond/pool.go: the relay's tunnel addresses
--   Pairing     core/pairbond/pairbond.go: pairing codes, registry of peers, message header
--   Fec         core/fec/fec.go: shards, parity and reconstruction; Sender and Receiver are
--               fecSender and fecGenBuffer of core/bond/fec.go
--   Congestion  core/cc/cc.go: the congestion window
--   BondPath    core/bond/path.go: a path's record; Health is what answered and missed probes do to it
--               and Arrows the diagram of its states with events and guards
--   Packets     core/bond/data.go and control.go: sealing and opening of packets
--   Modes       core/bond/mode.go: sending modes, the paths for copies and for parity
--   Tunnel      what core/bond/client.go and relay.go share: counters, headers, control payloads
--   Client      core/bond/client.go: sending; Reading is one packet of pathReadLoop and one tick of
--               probeLoop, Dialing the handshake and PATH_ADD
--   Relay       core/bond/relay.go: sessions and handlers of packets; Handshake is handleHandshakeInit
--               and handleUDP, Sending the return traffic, Runs NewRelay and runs of the whole relay;
--               Tables holds what its three tables have in common
--   Budget      core/classify/classify.go and core/budget/budget.go: traffic classes, token buckets
--
-- Conventions. A mutex makes a method one step, so a method is a function from state to state, and
-- concurrency is the order of steps in a history. Two methods do not hold one lock throughout and
-- are one step all the same: Session.Open checks and marks a window under two locks, but the relay
-- reads in one goroutine and a client each path in one of its own, so no two of them open packets
-- of one path at once; and HandleProbeAck and HandleProbeMissed store the state after they have
-- released the mutex, and the two at the same moment are not modelled. A byte, a uint64 and an
-- instant are native numbers, with wrap-around written out; durations and int64 values are
-- integers. A Go map is an association list, an error a value. Session.Open is `unseal` here, since
-- `open` is a keyword. The names of the functions are the source's in snake case.
--
-- How the parts meet: Session uses Replay for each path; Proto carries the nonce that Session builds;
-- Packets puts an inner header and a payload through both. Client and Relay seal with Packets on the
-- path that Sched or Modes picks among the BondPaths, push what they open into Reorder by its number
-- (GSN), and pass whole inner packets through Fec's shards. Congestion is fed by the probes of a
-- BondPath and bounds what Sched puts on it. The relay takes addresses from Pool.
--
-- Parameters: the cipher (chacha20poly1305), the Reed-Solomon library, the Noise library, CBOR and
-- float64 arithmetic are records of operations; a theorem that needs a law of theirs takes it as a
-- hypothesis, and a test gives a concrete instance. The clock, random numbers and the success of a
-- write are arguments.
--
-- Fuel: `drain_loop` runs on the length of the heap, which each round shortens; the sifting loops of
-- the heap run on a length of the list, and their theorems show that it is enough.
--
-- Not modelled: sockets, tickers and the goroutines that run the steps of Client and Relay, TUN
-- devices, the JSON of core/settings, base64 of keys, the diagnostics pages, the user interfaces and
-- the programs' main functions: calls of the operating system and of other libraries, with no logic
-- of the protocol.
pub mod Common
pub mod Proto
pub mod Crypto
pub mod Reorder
pub mod Sched
pub mod Pool
pub mod Pairing
pub mod Fec
pub mod Congestion
pub mod BondPath
pub mod Budget
pub mod Client
pub mod Modes
pub mod Packets
pub mod Relay
pub mod Tunnel
