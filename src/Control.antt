-- ===== src/Control.antt =====
-- internal/http: the control endpoint, over what it controls as an interface.
pub mod Metrics
pub mod Server
pub mod Guarded
mod Tests
