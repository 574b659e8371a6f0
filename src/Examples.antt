-- ===== src/Examples.antt =====
-- Runs of the modelled code of libs/ukfusefs, libs/libfuse and apps/fuse-correctness-test.
mod Queues
mod Daemons
mod Drivers
mod Systems
mod Callers
mod Clients
mod Benches
