-- ===== src/Samples.antt =====
-- example: the protocol and the servers that the repository gives as examples of its use.
pub mod Framing
pub mod Push
pub mod Limit
pub mod Echo
pub mod Chat
