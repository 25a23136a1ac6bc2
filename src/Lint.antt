-- ===== src/Lint.antt =====
-- tools/cpplint.py, the linter that the repository runs over its sources.
pub mod Regex
pub mod State
pub mod Report
pub mod Include
pub mod Brackets
pub mod Function
pub mod Paths
pub mod Categories
pub mod FileName
pub mod Nolint
pub mod Comments
pub mod Cleanse
pub mod FileChecks
pub mod Conditions
pub mod Outcomes
pub mod RequiredIncludes
pub mod Nesting
pub mod FunctionLengths
pub mod LineChecks
pub mod Constructs
pub mod Style
pub mod Language
pub mod Lines
pub mod Process
pub mod Program
