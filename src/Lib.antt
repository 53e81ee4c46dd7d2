-- ===== src/Lib.antt =====
-- A model of boringtun, the user-space WireGuard implementation of this repository with its
-- post-quantum handshake, and theorems about it. It is about the Rust code under boringtun/src,
-- built with the feature `pq`.
--
-- The parts and how they interact. A tunnel (Tunnel) takes packets from the tunnel interface and
-- datagrams from the network. A datagram is parsed (Packet) and its MACs are checked (RateLimiter). A handshake message goes to the
-- state machine of the peer's handshake (Handshake), which answers, or ends in a session; a data
-- packet goes to its session (Session), which decrypts it and asks its receiving window (Replay)
-- whether the counter is new. Payloads go out through the session's sealing, or wait in the tunnel's
-- queue for a session. The periodic work of the tunnel reads its timers (Timers).
-- A device (Device) keeps its peers (Peer), each with a tunnel, in three tables: by public key, by
-- index, and by the networks that a peer may use (AllowedIps).
--
-- Which file is about which code:
--   Errors        noise/errors.rs: `WireGuardError`, and `Result` with a panic as a third outcome
--   Replay        noise/session.rs: `ReceivingKeyCounterValidator`, its loops as recursions on fuel;
--                 Replay/Bits: its bits; Replay/Loops, Ends: its loops; Replay/Spec and Replay/Refine: the
--                 window as a set of counters; Replay/Delivery: runs; Replay/Wrap: the last counter
--   Session       noise/session.rs: `Session`; Session/Send, Receive, Link, EndToEnd, Transfer: one
--                 packet sent, one refused, all that a network delivers, several packets, both ends
--   Packet        noise/mod.rs: `Tunn::parse_incoming_packet`; Packet/Fields: its slices;
--                 Packet/Format: the wire formats;
--                 Packet/Sound and Packet/Complete: parsing against them
--   Aead, Crypto  the cryptography of third-party crates as interfaces: operations and documented laws
--   Handshake     noise/handshake.rs: the state; Handshake/Chain: hashes, key derivation, AEAD calls;
--                 Handshake/Initiation, Response, Completion, Anonymous: the handlers;
--                 Handshake/Seal, Macs, Steps, Opening, Reply, PqReply: lemmas for each message;
--                 Handshake/Agreement, PqAgreement, Tunnelled: whole handshakes and the data after
--                 them; Handshake/Refusal, Replayed, Once: what is refused; Index, Clock: the local
--                 index and the timestamps; Mac1: the MAC1 of every PQ message
--   RateLimiter   noise/rate_limiter.rs: the MAC checks and cookies; RateLimiter/Cookie: the cookie
--                 reply and the message that carries the cookie; RateLimiter/Verify and Calm: what is
--                 let through
--   Keys          serialization.rs: keys as text; Keys/Hex: which texts are keys
--   Timers        noise/timers.rs: the timer table; Timers/Timely: no timer is ahead
--   Tunnel        noise/mod.rs and noise/timers.rs: `Tunn` and its small operations;
--                 Tunnel/Encapsulate, Decapsulate: packets out and in, with every handler;
--                 Tunnel/Update: `Tunn::update_timers`; Tunnel/Valid, Keeps, Received, Expiry,
--                 Updated: the invariant, and what each operation does to it; Tunnel/Reach: all
--                 states that calls of the operations reach; Tunnel/Opened, Meeting, Exchange: a handshake
--                 between two tunnels; Tunnel/Carries: the packets that follow it
--   AllowedIps    device/allowed_ips.rs, with the trie of a third-party crate as an interface
--   Peer          device/peer.rs: a peer, its endpoint and its networks
--   Device        device/mod.rs: the tables of peers; Device/Lfsr: `IndexLfsr`; Device/Indices: its
--                 indices; Device/Coherent, Added, Keyed, Reach, States: that the tables name the same
--                 peers, whatever is called; Device/Api, Configured: the section of a peer in
--                 the configuration protocol (device/api.rs)
--   Base          numbers, bits, lists and bytes
--   Tests         the definitions on concrete inputs
--
-- How state and operations correspond. A struct is a record with the source's fields, an enum a data
-- type. A `&mut self` method takes the record and returns it beside the result; what it returns is
-- the state at the return, on errors too. Code that two functions share word for word (the chain of
-- a handshake) is one definition that both use. Bytes are numbers, with `IsBytes` where it matters.
-- A destination buffer of a handshake message is its length, since it is overwritten; that of a data
-- packet is a list. The clock and the random generators are arguments.
--
-- Bounds. u64 and u32 arithmetic wraps, as in a build without overflow checks; theorems about counters
-- ask for counters below 2^64 - 1024 where the wrap matters. The fuel of a clearing loop of the window
-- is the distance of its two bounds, which each pass reduces.
--
-- A tunnel. The array of eight sessions is a function of the slot, and the timer table one of the
-- timer's name. An instant is a number of nanoseconds; a call that reads the clock twice gets both
-- readings, the first and the later one, and an initiation keeps a reading of its own as the time of
-- sending. A rate limiter that several peers share is seen by one of them at a time.
--
-- The tables of a device. A peer that several tables share is an entry of a heap, and the tables hold
-- its number. A hash map is a function, and the order in which it yields its values an argument. The
-- limiter that the peers of a device share is copied into each. Whether the system shuts a socket down
-- is an argument; when it does not, the code panics.
--
-- Not modelled: the statistics of a tunnel, which are computed with f32; the settings of the device
-- itself in the configuration protocol and its answers; the event loop of the device and its
-- handlers of packets; system calls, TUN devices, foreign interfaces and command lines. The secrecy
-- of the cryptography is not modelled either: the interfaces state that what was sealed opens, and
-- not that nothing else does.
pub mod Base
pub mod Errors
pub mod Replay
pub mod Packet
pub mod Aead
pub mod Session
pub mod Crypto
pub mod Handshake
pub mod RateLimiter
pub mod Keys
pub mod Timers
pub mod Tunnel
pub mod AllowedIps
pub mod Peer
pub mod Device
pub mod Tests
