-- ===== src/Examples.antt =====
-- Runs of the modelled operations and the theorems at concrete inputs.
mod Texts
mod Blocks
mod TestRuns
mod CommandRuns
mod ProcessRuns
mod FileRuns
mod OtherRuns
mod SearchRuns
mod ProgramRuns
