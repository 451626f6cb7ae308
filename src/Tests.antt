-- ===== src/Tests.antt =====
-- Runs of the model at concrete inputs.
mod Regions
mod Heaps
mod Tables
mod Locks
mod Schedulers
mod Pages
mod Modules
mod Loading
mod Trees
mod Processes
mod Memory
mod Devices
mod Output
