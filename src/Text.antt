-- ===== src/Text.antt =====
-- Text as bytes: UTF-8 in the two encoders and the two decoders of the program, and string literals
-- printed and read. A `char *` is the list of its bytes as numbers below 256, less the final 0.
pub mod Utf8
pub mod Unquote
pub mod Quote
