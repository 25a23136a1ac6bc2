-- ===== src/Lint/Language.antt =====
-- The checks of the use of the language in tools/cpplint.py.
pub mod References
pub mod Casts
pub mod Includes
pub mod Calls
pub mod All
pub mod Sound
pub mod Results
mod Runs
