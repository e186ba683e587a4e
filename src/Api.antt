-- ===== src/Api.antt =====
-- api: the response writer, the error response and the three handlers.
pub mod Writer
pub mod Path
pub mod Submit
pub mod Status
pub mod Health
pub mod Middleware
pub mod Server
