-- ===== src/Publish.antt =====
-- src/actors/packets/publish.rs: publishing at the three levels of quality of service, as sender
-- (Publish/Send.antt) and as receiver (Publish/Receive.antt).
pub mod Send
pub mod Receive
pub mod Sender
pub mod Levels
pub mod Receiver
pub mod Repeats
