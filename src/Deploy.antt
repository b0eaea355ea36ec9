-- ===== src/Deploy.antt =====
-- deploy: the helper that runs as root.
pub mod Privileged
