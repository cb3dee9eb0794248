-- ===== src/App.antt =====
-- The client program of main.go: the ports that the user asks for, the three ways to open them, and
-- the web interface that starts and stops them.
pub mod Ports
pub mod Status
pub mod Tunnel
pub mod Gui
pub mod Ledger
pub mod Views
mod Tests
