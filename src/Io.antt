-- ===== src/Io.antt =====
-- src/io and src/async_std/io: buffered readers and writers over an abstract stream.
pub mod Contract
pub mod Slices
pub mod Seek
pub mod ToEnd
pub mod Transfer
pub mod Vectored
pub mod Scatter
pub mod BufReader
pub mod BufWriter
pub mod Lines
pub mod Typed
mod ListStream
mod FileStream
