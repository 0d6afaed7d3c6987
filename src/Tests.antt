-- ===== src/Tests.antt =====
-- The theorems at concrete inputs, and runs of the definitions.
mod Pcm
mod Iterators
mod Iostreams
mod Wav
mod Aiff
mod Streams
mod Flac
mod Ogg
mod Files
mod CoreAudio
