-- ===== src/Config.antt =====
-- internal/config: what the files of the configuration are built into.
pub mod Definitions
pub mod Pipeline
pub mod ContainerArgs
pub mod ContextEnvfile
