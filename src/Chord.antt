-- ===== src/Chord.antt =====
-- The Chord ring of Lab2/Node.
pub mod Ring
pub mod Node
pub mod Net
pub mod Routing
pub mod Storage
pub mod Notify
pub mod Pointers
pub mod Stabilize
pub mod Fingers
pub mod Client
pub mod Repair
pub mod Upkeep
pub mod Commands
pub mod Examples
