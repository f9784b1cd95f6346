-- ===== src/Json.antt =====
-- static/js/json.js: the parser that lets JSON of Python pass through JavaScript.
pub mod Digits
pub mod Scan
mod Tests
pub mod Values
pub mod Parser
pub mod Gate
