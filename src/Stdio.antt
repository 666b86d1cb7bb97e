-- ===== src/Stdio.antt =====
-- Formatted output: pintos/src/lib/stdio.c. The characters that a function hands to `output` are the list
-- that it gives, in their order; a format or string is the list of its characters before the null byte.
-- An argument is what `va_arg` finds; `none` is undefined behaviour: an argument of another type, or a
-- read behind the null byte of the format. The numbers of a format are taken as they are, without the
-- overflow of `int`.
pub mod Integer
pub mod Parse
pub mod Printf
pub mod RoundTrip
pub mod Buffer
pub mod Width
