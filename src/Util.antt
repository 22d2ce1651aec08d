-- ===== src/Util.antt =====
-- pkg/util: names of annotations, and the tests on objects that the controller shares.
pub mod Maps
pub mod Split
pub mod Names
pub mod Filter
pub mod Text
