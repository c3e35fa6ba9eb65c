-- ===== src/Utils.antt =====
-- pkg/utils: the constants, the wrapper of watches, and the normalised API resources.
pub mod Constants
pub mod Watch
pub mod ApiResource
pub mod KubeConfig
pub mod Flag
