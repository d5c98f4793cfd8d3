-- ===== src/Strex.antt =====
-- lib/extra/strex.c. A `const char *` argument is the list of its bytes before the NUL; a function
-- that writes a text returns the list of bytes that it writes before the NUL, and its return value is
-- the length of that list. -EINVAL is `none`.
pub mod Hex
pub mod Dec
pub mod Printed
pub mod Ip
pub mod Size
pub mod Units
mod Examples
