-- ===== src/Handler.antt =====
-- pkg/apiserver/overlay/customresource_handler.go and priority.go: the resources that are served, kept
-- in step with the CustomResourceDefinitions of the cluster.
pub mod Priority
pub mod Crd
pub mod Discovery
pub mod State
pub mod Routes
pub mod Storage
pub mod Events
pub mod Serve
pub mod Install
pub mod Groups
mod Tests
mod AdditionTests
mod DiscoveryTests
