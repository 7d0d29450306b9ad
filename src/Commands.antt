-- ===== src/Commands.antt =====
-- homelink/commands: which commands a device may run, and running them.
pub mod Shlex
pub mod Validators
pub mod Permissions
pub mod Executor
