-- ===== src/Archive.antt =====
-- Unzip of pkg/util/zip/zip.go. The archive, the files and the functions on paths are parameters.
pub mod Confined
use teiid_operator.Prelude.{Bool, true, false, not, List, [], ◌∷◌, ◌++◌, if◌then◌else◌}
use teiid_operator.Text.{Str, codes, has_prefix}
use teiid_operator.Result.{Result, ok, err, failed}
use teiid_operator.Exec.{Exec, pure, raise, attempt, update, ◌>>=◌, ◌>>◌}

-- A file of an archive.
pub record Entry : Type 0 where
  pub name : Str
  pub is_dir : Bool

-- What Unzip calls: the reader of archives, the files, and the functions on paths.
pub record Disk (W : Type 0) : Type 0 where
  pub open_reader : Str → Exec W (List Entry)
  pub mkdir_all : Str → Exec W (Unit {0})
  pub open_file : Str → Exec W (Unit {0})
  pub open_entry : Entry → Exec W Str
  pub copy : Str → Str → Exec W (Unit {0})
  pub join : Str → Str → Str
  pub clean : Str → Str
  pub dir : Str → Str

-- The names that are returned, beside an error too, and the files.
pub record Unpacking (W : Type 0) : Type 0 where
  pub filenames : List Str
  pub world : W

module _ {W : Type 0} where
  abbrev pub on_disk : {A : Type 0} → Exec W A → Exec (Unpacking W) A
  on_disk m s = let (r, w) = m s.world in (r, record s { world = w })

  -- A run of Unzip where the files alone go on, and not the names.
  abbrev pub extract : {A : Type 0} → Exec (Unpacking W) A → Exec W A
  extract m w = let (r, s) = m (record { filenames = []; world = w }) in (r, s.world)

  abbrev pub add_name : Str → Exec (Unpacking W) (Unit {0})
  add_name fpath = update (λ s. record s { filenames = s.filenames ++ fpath ∷ [] })

module _ {W : Type 0} (disk : Disk W) where
  -- An error of the creation of a folder is dropped.
  unfoldable pub make_folder : Str → Exec (Unpacking W) (Unit {0})
  make_folder fpath = do attempt (on_disk (disk.mkdir_all fpath)); pure tt

  unfoldable pub make_file : Entry → Str → Exec (Unpacking W) (Unit {0})
  make_file f fpath = do
    on_disk (disk.mkdir_all (disk.dir fpath))
    on_disk (disk.open_file fpath)
    content ← on_disk (disk.open_entry f)
    on_disk (disk.copy fpath content)

  unfoldable pub unpack_entry : Entry → Str → Exec (Unpacking W) (Unit {0})
  unfolding make_folder make_file
  unpack_entry f fpath = do
    add_name fpath
    if f.is_dir then make_folder fpath else make_file f fpath

  -- The test against paths that lead out of the folder.
  unfoldable pub is_legal : Str → Str → Bool
  unfolding has_prefix
  is_legal dest fpath = has_prefix fpath (disk.clean dest ++ codes "/")

  unfoldable pub unless_illegal : Bool → Entry → Str → Exec (Unpacking W) (Unit {0})
  unfolding unpack_entry
  unless_illegal true f fpath = unpack_entry f fpath
  unless_illegal false f fpath = raise (failed (fpath ++ codes ": illegal file path"))

  unfoldable pub unpack : Str → List Entry → Exec (Unpacking W) (Unit {0})
  unfolding unless_illegal is_legal
  unpack dest [] = pure tt
  unpack dest (f ∷ files) =
      unless_illegal (is_legal dest (disk.join dest f.name)) f (disk.join dest f.name) >>= λ _.
      unpack dest files

  unfoldable pub unzip : Str → Str → Exec (Unpacking W) (Unit {0})
  unfolding unpack
  unzip src dest = on_disk (disk.open_reader src) >>= unpack dest
