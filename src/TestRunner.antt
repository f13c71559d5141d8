-- ===== src/TestRunner.antt =====
-- The test runner, subrepos/plano/src/plano/test.py: tests, a run of them over modules, and what
-- the run reports. A test function is a call that is told whether it is unskipped, which is what
-- `skip_test` looks up in its caller. What the alarm of `Timer` makes of a call under a time limit
-- is the parameter `limit`, the test of a name against a pattern the parameter `matches`, and what
-- the names of the temporary output files are made of the parameter `temps`.
pub mod Tests
pub mod Reports
pub mod Summary
pub mod Runs
pub mod Outcomes
pub mod Verdict
pub mod Expectations
pub mod Outputs
pub mod TestCommand
pub mod Program
unfoldable pub use Tests.*
unfoldable pub use Reports.*
unfoldable pub use Summary.*
unfoldable pub use Runs.*
