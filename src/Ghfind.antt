-- ===== src/Ghfind.antt =====
-- internal/ghfind: the search for sources on GitHub.
pub mod Cover
pub mod Tests
