-- ===== src/Tests.antt =====
-- Runs of the definitions on concrete input, and instances of the theorems.
pub mod Data
pub mod Infixes
pub mod Frames
pub mod Connections
pub mod Envelopes
pub mod Ciphers
pub mod Peers
pub mod Registries
pub mod Timeouts
pub mod Packets
pub mod PlainPeers
pub mod Pools
pub mod Mails
pub mod PlainExchanges
pub mod PlainDialogues
pub mod Networks
pub mod Lateness
pub mod Sessions
pub mod Dialogues
pub mod Wires
