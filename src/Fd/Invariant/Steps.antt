-- ===== src/Fd/Invariant/Steps.antt =====
-- The handlers of a peer keep the invariant.
pub mod Exchange
pub mod Connect
pub mod Frames
pub mod Sending
