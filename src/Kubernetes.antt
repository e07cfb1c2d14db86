-- ===== src/Kubernetes.antt =====
-- The Kubernetes side of the user interface (app/kubernetes).
pub mod Labels
pub mod FormValidation
pub mod Stacks
pub mod Applications
pub mod Nodes
pub mod Ingresses
pub mod Pods
