-- ===== src/Lint/Style.antt =====
-- The checks of the style of a line in tools/cpplint.py.
pub mod Comments
pub mod Blank
pub mod Operators
pub mod Braces
pub mod Semicolons
pub mod Checks
pub mod RvalueTypes
pub mod Rvalues
pub mod All
pub mod Sound
mod Runs
