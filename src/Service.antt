-- ===== src/Service.antt =====
-- The service that users send commands to, service.go.
pub mod Words
pub mod Commands
