-- ===== src/Audio/Wav.antt =====
-- The WAV reader: the chunks of a file, its header, and the source of its samples.
pub mod Chunks
pub mod Reader
pub mod Header
pub mod Source
pub mod Sink
pub mod RoundTrip
