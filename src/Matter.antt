-- ===== src/Matter.antt =====
-- src/matter: the clusters that read the shared snapshot, and the bridge that reports its changes.
pub mod Tlv
pub mod Measurement
pub mod Epm
pub mod Eem
pub mod Clusters
pub mod Bridge
pub mod Node
pub mod Descriptor
pub mod Handlers
pub mod Metadata
pub mod Runtime
