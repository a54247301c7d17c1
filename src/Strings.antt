-- ===== src/Strings.antt =====
-- Go's `strings` and `strconv`, on texts as lists of bytes.
mod Bytes
mod Laws
mod Numbers
mod Order
mod Words
unfoldable pub use Bytes.{
  Str, codes, eq_str, has_prefix, trim_prefix, has_suffix, trim_suffix, contains, contains_byte,
  cut_byte, cut_at, cut_last_byte, split_byte, join, to_lower, to_upper, equal_fold, is_all_digits,
  trim_left, trim_right, trim_space, is_space, fields,
}
unfoldable pub use Numbers.{atoi, itoa}
pub use Laws.*
unfoldable pub use Words.{spaceless, is_word}
pub use Words.{
  spaceless-contains_byte, fields-nil, fields-space, fields-word, fields-last, spaceless-itoa,
  is_word-itoa,
}
unfoldable pub use Order.{leb_str, insert_sorted}
