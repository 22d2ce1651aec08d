-- ===== src/Api.antt =====
-- pkg/polarisapi: the HTTP interface of the Polaris server.
pub mod Types
pub mod Http
pub mod Split
pub mod Instances
pub mod Services
pub mod Configs
