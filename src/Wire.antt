-- ===== src/Wire.antt =====
-- The bytes on the wire: constants, flags, header, generated readers and writers, and messages.
pub mod Consts
pub mod Flags
pub mod FlagBits
pub mod Utf8
pub mod Reader
pub mod Header
pub mod Framing
pub mod Messages
pub mod RoundTrips
