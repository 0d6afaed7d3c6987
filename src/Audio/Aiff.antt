-- ===== src/Audio/Aiff.antt =====
-- AIFF files (audiostream/src/ni/media/audio/aiff).
pub mod Chunks
pub mod Header
pub mod Layout
pub mod Source
pub mod Sink
pub mod Written
pub mod RoundTrip
