-- ===== src/Text.antt =====
-- Go strings as lists of code points, with the functions of package strings that the program
-- calls. A string is assumed to be valid UTF-8, so that its runes determine its bytes.
mod Defs
pub mod Split
pub mod Trim
unfoldable pub use Defs.*
