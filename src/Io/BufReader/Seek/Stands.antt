-- ===== src/Io/BufReader/Seek/Stands.antt =====
-- src/async_std/io/buf_reader.rs: where a seek leads, and that the buffer shows the stream there.
use xx_core.Base.Outcome.{Outcome}
use xx_core.Uint
use xx_core.Io.BufReader.{BufReader}
use xx_core.Io.BufReader.Seek.Shows.{Shows}
