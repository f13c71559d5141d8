-- ===== src/World.antt =====
-- The process-wide state that subrepos/plano/src/plano/main.py reads and writes, its exceptions, and
-- calls as functions from the state to a result and a new state. What a call wrote stays written
-- when it raises.
mod Exceptions
mod Nodes
mod Calls
pub use Exceptions.*
pub use Nodes.*
pub use Calls.*
