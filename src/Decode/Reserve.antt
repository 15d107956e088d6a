-- ===== src/Decode/Reserve.antt =====
-- The announced count reaches `reserve` before any token is read.
