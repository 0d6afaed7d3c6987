-- ===== src/Pcm.antt =====
-- The pcm library (pcm/inc/ni/media/pcm).
pub mod Format
pub mod Runtime
pub mod Convert
pub mod Sample
pub mod Dispatch
pub mod Iterator
pub mod Limits
