-- ===== src/Tests.antt =====
-- Tests of the definitions on concrete inputs, and the theorems at inputs that meet their
-- hypotheses.
mod Tunnel
mod Networks
mod Device
mod Replay
mod Packet
mod Cipher
mod Primitives
mod Handshake
mod Session
mod Refusals
mod Limiter
mod Keys
mod Api
