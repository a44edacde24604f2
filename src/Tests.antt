-- ===== src/Tests.antt =====
-- Concrete parts of the environment, and the theorems applied to them.
mod Parse
mod Queue
mod Systemv
mod Engine
mod Pf
mod Firewalls
mod Daemon
mod Start
mod Main
mod Clients
mod Delivery
mod Drain
mod Life
mod Text
mod Bans
mod Block
