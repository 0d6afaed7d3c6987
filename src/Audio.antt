-- ===== src/Audio.antt =====
-- Audio files (audiostream): what a stream says of itself, and the file formats.
pub mod Info
pub mod Reader
pub mod Ieee80
pub mod Wav
pub mod Aiff
pub mod Flac
pub mod Ogg
pub mod CoreAudio
pub mod Tools
pub mod Ifstream
pub mod Istream
