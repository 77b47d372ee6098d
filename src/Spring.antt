-- ===== src/Spring.antt =====
-- pkg/controller/virtualdatabase/convert-ds-properties.go: data sources as environment variables.
pub mod Names
pub mod Convert
