-- ===== src/Utils/Math/Tests.antt =====
-- The theorems about common/utils/math.h, applied to numbers near the limits.
