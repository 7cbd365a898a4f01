-- ===== src/Tests.antt =====
-- Runs of the model at concrete states, and each result of the development applied at one.
mod Backends
mod Tables
mod Operations
mod Transfers
mod Transport
mod Queue
mod Wire
mod Guest
