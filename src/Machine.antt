-- ===== src/Machine.antt =====
-- The machine that the program runs on: byte-addressed memory, and the byte orders of the host and
-- of the network. These are the language's and its standard library's; no code of src stands here.
pub mod Memory
pub mod Endian
pub mod Bits
