-- ===== src/Js.antt =====
-- JavaScript values as the packages see them.
pub mod Value
pub mod Text
pub mod Fields
