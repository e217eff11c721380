-- ===== src/Tests.antt =====
-- Concrete runs of the development's definitions, and its theorems at concrete inputs.
pub mod Rings
pub mod Tables
pub mod World
pub mod Backends
pub mod Calls
pub mod Processes
pub mod Channels
pub mod Handles
pub mod Hooks
pub mod Texts
pub mod Environments
pub mod Shells
pub mod Ports
pub mod CommandLines
pub mod Containers
