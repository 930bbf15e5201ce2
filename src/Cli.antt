-- ===== src/Cli.antt =====
-- src/delta_cli.py: the validators, the documents that the commands build, and their checks.
pub mod Validate
pub mod Build
pub mod Verify
pub mod Accepted
