-- ===== src/Daemon.antt =====
-- internal/app/app.go: the daemon's loop around the scheduler, its listeners and its start. What a call
-- of another part's outside answers is an argument.
pub mod Listener
pub mod Loop
pub mod Boot
pub mod Start
mod Examples
