-- ===== src/Audio/CoreAudio.antt =====
-- MP3 and MP4 files on macOS (os/mac/core_audio_source.h), over the system's AudioToolbox, which is a parameter.
pub mod System
pub mod Describe
pub mod Source
