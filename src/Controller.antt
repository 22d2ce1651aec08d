-- ===== src/Controller.antt =====
-- pkg/controller: the controller that keeps Polaris in step with a Kubernetes cluster.
pub mod Tasks
pub mod State
pub mod Select
pub mod Instances
pub mod Services
pub mod ConfigMaps
pub mod Namespaces
pub mod Events
pub mod Frames
pub mod Resync
pub mod Worker
