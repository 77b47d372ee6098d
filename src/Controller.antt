-- ===== src/Controller.antt =====
-- pkg/controller/virtualdatabase: the reconciler and its actions.
pub mod Deep
pub mod Actions
pub mod Certificates
pub mod ConsoleLinks
pub mod Reconcile
pub mod Config
pub mod Pom
pub mod Cluster
pub mod Frame
pub mod Watches
pub mod Kubernetes
pub mod Digest
pub mod Updater
pub mod Initialize
pub mod Monitor
pub mod Ddl
pub mod Environments
pub mod Pods
pub mod Deployment
pub mod Services
pub mod Infinispan
pub mod CacheStore
pub mod Images
pub mod BaseImage
pub mod BuilderImage
pub mod Rules
pub mod Payload
pub mod ServiceImage
pub mod Transitions
pub mod Steps
