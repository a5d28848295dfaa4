-- ===== src/Tests.antt =====
-- Runs of the model on a small registry, host and controller, and the theorems at concrete inputs.
mod Fixtures
mod Network
mod Functions
mod Machines
mod Handlers
mod Deployment
mod Caddy
mod Logs
mod Command
