-- ===== src/Iostreams/Device.antt =====
-- What a stream device offers: the operations that the templates ask of their parameter, with the
-- state passed explicitly. Files (boost::iostreams::file_descriptor) and the backends of
-- `custom_device` are such devices from outside.
use ni_media.Common.{ℕ, List}
use ni_media.Common.Int.{ℤ}
use ni_media.Iostreams.Positioning.{SeekDir}

-- The result of a read: the bytes that were copied, or -1. A fault is a read out of range.
pub data Read : Type 0 where
  got : List ℕ → Read
  eof fault : Read

-- The result of a write: how many bytes were taken, or -1.
pub data Write : Type 0 where
  wrote : ℕ → Write
  failed fault : Write

-- A source's `read( s, n )` and `seek( off, way )`.
pub record Source (S : Type 0) : Type 0 where
  pub read : ℕ → S → Read × S
  pub seek : ℤ → SeekDir → S → ℤ × S

-- A sink's `write( s, n )`, on the `n` bytes, and `seek( off, way )`.
pub record Sink (S : Type 0) : Type 0 where
  pub write : List ℕ → S → Write × S
  pub seek : ℤ → SeekDir → S → ℤ × S
