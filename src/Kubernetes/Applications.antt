-- ===== src/Kubernetes/Applications.antt =====
-- app/kubernetes/helpers/application/index.js: what an application is made of, against the form in
-- which it is edited.
pub mod Environment
pub mod Configurations
pub mod Folders
pub mod PortForm
pub mod Placements
pub mod PublishedPorts
