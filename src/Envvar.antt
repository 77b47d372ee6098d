-- ===== src/Envvar.antt =====
-- pkg/util/envvar/envvar.go
mod Defs
pub mod Lookup
pub mod Unique
unfoldable pub use Defs.{
  get, remove, modify, set_val, set_var, set_val_from, set_value_from, upsert, combine, clone,
  add_missing,
}
pub use Defs.{EnvVar, EnvVarSource, KeySelector, field_source}
