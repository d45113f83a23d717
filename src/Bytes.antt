-- ===== src/Bytes.antt =====
-- packages/shared/src/bytestring.js: byte strings and Lua string literals.
pub mod Defs
pub mod Literal
pub mod RoundTrip
pub mod Inverse
pub mod Fuel
pub mod Examples
