-- ===== src/Cluster.antt =====
-- The systems around the programs: the Kubernetes API server, Vault and the pod itself. None of
-- them is part of the repository, so they are a parameter, the record `Cluster`; the requests
-- that the programs send to them are recorded in a trace.
mod Calls
mod Effects
mod Interface
pub mod Api
pub mod Laws
pub mod Frame
pub mod Rules
pub mod Memory
pub mod MemoryLaws
pub use Calls.*
pub use Effects.*
pub use Interface.*
