-- ===== src/Audio/Ogg.antt =====
-- Ogg files (ogg/ogg_source.h): the source over libvorbisfile, which is a parameter.
pub mod Vorbis
pub mod Source
