-- ===== src/Manager.antt =====
-- cmd/polaris-controller/app: the start of the controller.
pub mod Options
pub mod Config
pub mod Registration
