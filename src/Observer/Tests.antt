-- ===== src/Observer/Tests.antt =====
-- Tests of common/include/common/Observer.hpp.
