-- ===== src/Tests.antt =====
-- Runs at concrete inputs, and the theorems at inputs that meet their hypotheses.
mod Inputs
mod Wire
mod Reading
mod Writing
mod Watching
mod Flows
mod Counting
mod Parts
mod Delivering
mod Running
mod Numbers
mod Waiting
