-- ===== src/Examples.antt =====
-- Runs of the code on concrete inputs, and the theorems at such inputs.
mod Devices
mod Arguments
mod Statistics
mod Stream
mod Chunk
mod Names
mod Queues
mod Recording
mod Settings
mod Units
