-- ===== src/Openflow.antt =====
-- openflow.h: the wire structures of OpenFlow 1.3 as the compiler lays them out, the message types,
-- and the header that starts every message.
pub mod Layout
pub mod Structs
pub mod Sizes
pub mod Types
pub mod Oxm
pub mod Enums
pub mod Header
pub mod Fields
