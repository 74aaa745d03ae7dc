-- ===== src/Singleton/Lazy/Tests.antt =====
-- Two threads that ask for a lazy singleton.
