-- ===== src/Util.antt =====
-- The helpers of pkg/util/util.go on slices, properties, files and archives. The decoding of properties,
-- the paths and files, and the writer of an archive are parameters.
use teiid_operator.Prelude.{
  ℕ, Bool, true, false, Option, none, some, List, [], ◌∷◌, ◌++◌, ◌==◌, length, for_each,
  if◌then◌else◌,
}
use teiid_operator.Text.{Str, text_Eq, codes}
use teiid_operator.Table.{lookup}
use teiid_operator.Result.{Err, Result, ok, err, failed}
use teiid_operator.Exec.{Exec, pure, raise, attempt, ◌>>=◌, ◌>>◌}
use teiid_operator.Envvar.{EnvVar}

unfoldable pub string_slice_join : List (List Str) → List Str
string_slice_join slices = for_each (λ result s. result ++ s) [] slices

unfoldable pub string_slice_exists : List Str → Str → Bool
string_slice_exists [] item = false
string_slice_exists (s ∷ slice) item = if s == item then true else string_slice_exists slice item

unfoldable pub string_slice_contains : List Str → List Str → Bool
unfolding string_slice_exists
string_slice_contains slice [] = true
string_slice_contains slice (item ∷ items) =
    if string_slice_exists slice item then string_slice_contains slice items else false

-- The loop of StringSliceUniqueAdd is that of StringSliceExists.
unfoldable pub unique_add : List Str → Str → List Str × Bool
unfolding string_slice_exists
unique_add slice item =
    if string_slice_exists slice item then (slice, false) else (slice ++ item ∷ [], true)

-- The slice behind a pointer: of one that is nil the item is added to a slice that nobody sees.
unfoldable pub string_slice_unique_add : Option (List Str) → Str → Option (List Str) × Bool
unfolding unique_add
string_slice_unique_add none item = (none, true)
string_slice_unique_add (some slice) item =
    (some (unique_add slice item).0, (unique_add slice item).1)

unfoldable pub lookup_env_var : List EnvVar → Str → Option EnvVar
lookup_env_var [] name = none
lookup_env_var (e ∷ vars) name = if e.name == name then some e else lookup_env_var vars name

-- ExtractApplicationPropertiesString and ExtractApplicationPropertiesBytes: `load` decodes the text into
-- its keys and values, and the consumer takes them one after the other.
module _ {S : Type 0} (load : Str → Result (List (Str × Str))) (consumer : Str → Str → S → S) where
  unfoldable pub consume : Result (List (Str × Str)) → Exec S (Unit {0})
  consume (ok entries) s = (ok tt, for_each (λ x kv. consumer kv.0 kv.1 x) s entries)
  consume (err e) s = (err e, s)

  unfoldable pub extract_application_properties : List (Str × Str) → Exec S (Unit {0})
  unfolding lookup consume
  extract_application_properties data_map =
      elim (lookup data_map (codes "application.properties")) [
        | none ↦ pure tt
        | some pstr ↦ consume (load pstr)
      ]

module _ {W A B : Type 0} (error_text : Err → Str) where
  -- errors.Wrap(err, message)
  abbrev pub wrapped : Str → Exec W A → (A → Exec W B) → Exec W B
  wrapped message m rest = attempt m >>= λ r. elim r [
    | ok a ↦ rest a
    | err e ↦ raise (failed (message ++ codes ": " ++ error_text e))
  ]

module _ {W : Type 0} (error_text : Err → Str) (path_join : Str → Str → Str) (path_dir : Str → Str)
    (mkdir_all create : Str → Exec W (Unit {0}))
    (write_string : Str → Str → Exec W (Unit {0})) where
  unfoldable pub write_file_with_content : Str → Str → Str → Exec W (Unit {0})
  write_file_with_content build_dir relative_path content =
      let file_path = path_join build_dir relative_path in
      wrapped error_text (codes "could not create dir for file " ++ relative_path)
        (mkdir_all (path_dir file_path))
        (λ _.
          wrapped error_text (codes "could not create file " ++ relative_path) (create file_path)
            (λ _.
              wrapped error_text (codes "could not write to file " ++ relative_path)
                (write_string file_path content) (λ _. pure tt)))

-- The buffer is what the writer has written; the table's order is that of the iteration.
module _ {Buffer : Type 0} (write_header : Str → ℕ → Exec Buffer (Unit {0}))
    (write : Str → Exec Buffer (Unit {0})) (close : Exec Buffer (Unit {0})) where
  unfoldable pub write_files : List (Str × Str) → Exec Buffer (Unit {0})
  write_files [] = pure tt
  write_files ((name, body) ∷ files) = do
    write_header name (length body)
    write body
    write_files files

  unfoldable pub tar : List (Str × Str) → Exec Buffer (Unit {0})
  unfolding write_files
  tar files = do write_files files; close
