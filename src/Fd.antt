-- ===== src/Fd.antt =====
-- The full-duplex protocol, src/proto/fd.
pub mod FramesQueue
pub mod IQueueControl
pub mod Peers
pub mod Handle
pub mod Control
pub mod ServiceQueue
pub mod Connection
pub mod Confirm
pub mod OnRx
pub mod OnFrame
pub mod NextFrame
pub mod IdleTimeout
pub mod TxData
pub mod Api
pub mod Invariant
pub mod Delivery
pub mod Diagram
pub mod Init
pub mod Polling
mod Tests
mod HandleTests
