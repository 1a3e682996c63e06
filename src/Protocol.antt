-- ===== src/Protocol.antt =====
-- Src/common/include/session_protocol.h and Src/common/src/session_protocol.cpp: the frame
-- header, the SYN and UDP payloads, the length-prefixed message and the origin form of a target.
pub mod Types
pub mod Word
pub mod Frame
pub mod Syn
pub mod Udp
pub mod Message
pub mod Origin
mod Tests
