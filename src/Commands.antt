-- ===== src/Commands.antt =====
-- The command framework, subrepos/plano/src/plano/command.py.
pub mod Values
pub mod Parameters
pub mod Calls
pub mod Main
pub mod Invocations
pub mod Binding
pub mod Endings
pub mod Nesting
pub mod Naming
pub mod Display
pub mod CommandLine
pub mod Signatures
pub mod Loading
pub mod Parser
pub mod Accepted
pub mod Application
pub mod Selected
unfoldable pub use Values.*
unfoldable pub use Parameters.*
unfoldable pub use Calls.*
unfoldable pub use Main.*
unfoldable pub use Invocations.*
