-- ===== src/Kube.antt =====
-- internal/kubernetes: pods as the controller sees them, their order, and the calls of the API.
mod Tests
pub mod Pods
