-- ===== src/Str.antt =====
-- lib/string.c. Each function is in the child module for its group.
pub mod Block
pub mod Build
pub mod Compare
pub mod Num
pub mod Scan
pub mod Text
pub mod Token
