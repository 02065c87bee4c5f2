-- ===== src/Plugins.antt =====
-- plugins: the protocols that the repository ships beside the default one.
pub mod Protobuf
pub mod Websocket
