-- ===== src/Regex.antt =====
-- The part of Go's package `regexp` that the operator uses.
mod Defs
pub mod First
pub mod Words
unfoldable pub use Defs.{
  run, star_run, concat_map, find, find_anchored, find_all, group_text, is_digit, is_word, is_space,
  exactly, none_of, take_until, lit, lit_fold,
}
pub use Defs.{Re, eps, set, seq, alt, star, group, eol, Caps, Found, plus, opt, lazy_opt}
