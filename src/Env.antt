-- ===== src/Env.antt =====
-- include/leveldb/env.h: the parts of the environment that have code of their own.
pub mod WritableFile
pub mod EnvWrapper
use rockscopy.Base.{ℕ, Bool}

-- Its constructors have no body here.
pub record EnvOptions : Type 0 where
  pub use_os_buffer : Bool
  pub use_mmap_reads : Bool
  pub use_mmap_writes : Bool
  pub set_fd_cloexec : Bool
  pub bytes_per_sync : ℕ
