-- ===== src/Sessions.antt =====
-- apps/web/protocol/sessionFragment.ts and recentSessions.ts: sessions in the page's address and in
-- its storage.
pub mod Fragment
pub mod Recent
