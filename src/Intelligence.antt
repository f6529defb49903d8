-- ===== src/Intelligence.antt =====
-- apps/web/intelligence: the client of the intelligence service, and what it checks of its requests
-- and of the answers.
pub mod Answers
pub mod Exact
pub mod Requests
pub mod Commands
pub mod Client
