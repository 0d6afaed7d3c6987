-- ===== src/Iostreams.antt =====
-- The stream devices (audiostream/src/ni/media/iostreams and inc/ni/media/iostreams).
pub mod Positioning
pub mod Device
pub mod Container
pub mod Subview
pub mod Fetch
pub mod File
