-- ===== src/Utils.antt =====
-- common/utils: data structures of the library.
pub mod OrderedMap
pub mod SafeChan
pub mod SafeCloser
pub mod SingleRun
pub mod Slices
mod Examples
