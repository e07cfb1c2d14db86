-- ===== src/Tests.antt =====
-- The theorems at concrete inputs, and runs of the definitions.
mod PortForms
mod Ports
mod Logs
mod Containers
mod KeyValues
mod Datatable
mod Clusters
mod Applications
mod Sessions
mod Logins
