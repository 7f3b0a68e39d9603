-- ===== src/Tests.antt =====
-- Concrete inputs on which the theorems apply.
mod Names
mod Routes
mod Handshakes
mod Tcp
mod Publications
mod Outbound
mod Setup
mod Processes
mod Loop
mod Tunnels
