-- ===== src/Executor.antt =====
-- backend/app/executor: the tools that change a host, each behind an approval, and the broker.
pub mod Broker
pub mod Cleanup
pub mod Config
pub mod Files
pub mod Machine
pub mod Systemd
pub mod Processes
