-- ===== src/Text.antt =====
-- The C library's text conversions that the servers call, as the C standard and glibc define them:
-- `strcmp`, `isspace`, the conversions `%u`, `%d`, `%Ns` of `printf` and `scanf`, and `strtol`.
pub mod Chars
pub mod Decimal
pub mod Scan
