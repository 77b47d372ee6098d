-- ===== src/Text.antt =====
-- Go strings as the program uses them: lists of bytes. The functions are those of the package
-- `strings` that the operator calls, read on ASCII text.
mod Defs
mod Laws
unfoldable pub use Defs.{
  text_beq, has_prefix, has_suffix, contains, index_byte, count_byte, split_byte, replace_byte,
  remove_byte, upper, lower, to_upper, to_lower, equal_fold, trim_space, is_upper, join,
}
pub use Defs.{Str, codes, text_Eq, text_beq_iff, push_first}
pub use Laws.*
