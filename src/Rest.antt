-- ===== src/Rest.antt =====
-- pkg/apiserver/overlay/rest.go: the REST storage that serves one resource.
pub mod User
pub mod Objects
pub mod Names
pub mod Manifest
pub mod DryRun
pub mod Crud
pub mod Listing
pub mod Lister
pub mod Watch
pub mod Collection
pub mod Tenant
mod Example
