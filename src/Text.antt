-- ===== src/Text.antt =====
-- Text as its bytes, and the functions of Go's `strings`, `strconv` and `fmt` that the program calls.
-- White space is that of ASCII.
mod Defs
pub mod Laws
pub mod Assoc
pub mod Trim
unfoldable pub use Defs.{
  Text, codes, lit, text_eq, has_prefix, has_suffix, trim_prefix, trim_suffix, contains, index_byte,
  index_of, last_index_byte, split, cons_head, cut, is_space, trim_left, trim_right, trim_space,
  remove_byte, shift, join, itoa, lower_byte, to_lower, repeat, is_digit, text_less, concat,
}
