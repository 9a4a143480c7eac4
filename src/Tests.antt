-- ===== src/Tests.antt =====
-- Runs of the model at fixed inputs, and the theorems at inputs that meet their hypotheses.
mod Chunks
mod Workers
mod Downloads
mod Queues
mod Manifests
mod Games
mod Transports
mod Codes
mod Archives
mod Peers
mod Hooks
mod Services
mod Forges
mod Updates
