-- ===== src/Strings.antt =====
-- The string helpers of src/lib/common: string.cpp and wsStrip.cpp.
pub mod Bytes
pub mod Strip
pub mod Coords
pub mod Split
pub mod Url
pub mod Checks
pub mod Buffer
pub mod Lower
pub mod Decimal
pub mod Duration
mod Samples
