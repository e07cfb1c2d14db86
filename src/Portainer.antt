-- ===== src/Portainer.antt =====
-- app/portainer: the part of the client that all kinds of environments share.
pub mod Datatable
pub mod Storage
pub mod StateManager
pub mod Authentication
pub mod EndpointProvider
pub mod ResourceControl
pub mod EnvFile
