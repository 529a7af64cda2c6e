-- ===== src/Tests.antt =====
-- Runs of the code on small inputs, and the theorems at such inputs.
mod Positions
mod Reader
mod Ids
mod Blocks
mod Pipeline
mod Application
mod Options
mod Threads
mod Threaded
mod Drivers
