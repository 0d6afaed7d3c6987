-- ===== src/Audio/Flac.antt =====
-- FLAC files (flac/flac_source.h): the source over libFLAC's decoder, which is a parameter.
pub mod Decoder
pub mod Interleave
pub mod Metadata
pub mod Decoding
pub mod Source
