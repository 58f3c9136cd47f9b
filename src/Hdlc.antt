-- ===== src/Hdlc.antt =====
-- src/proto/hdlc/low_level/hdlc.c: framing by flag bytes, byte stuffing and a check sum.
pub mod Bytes
pub mod Wire
pub mod Tx
pub mod Rx
pub mod CheckSum
pub mod Hearing
pub mod Recovery
pub mod RoundTrip
pub mod Bytewise
mod Tests
pub mod Init
