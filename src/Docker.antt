-- ===== src/Docker.antt =====
-- The Docker side of the user interface (app/docker).
pub mod Ports
pub mod Durations
pub mod KeyValues
pub mod Logs
pub mod Containers
pub mod Constraints
