-- ===== src/Protocol.antt =====
-- protocol.c: one binkp session.
pub mod State
pub mod Env
pub mod Send
pub mod Transfer
pub mod Recv
pub mod Tfiles
pub mod Got
pub mod Skip
pub mod Get
pub mod Offer
pub mod Start
pub mod Login
pub mod Outgoing
pub mod Session
pub mod Adr
pub mod Nul
