-- ===== src/Archive/Confined.antt =====
-- Where Unzip of pkg/util/zip/zip.go writes.
use teiid_operator.Prelude.{◌≡◌, refl, Bool, true, false, List, [], ◌∷◌, ◌++◌, All, All-append}
use teiid_operator.Text.{Str}
use teiid_operator.Exec.{Exec}
use teiid_operator.Exec.Keeps.{Keeps, Keeps-bind, Keeps-if}
use teiid_operator.Archive.{
  Entry, Disk, Unpacking, on_disk, make_folder, make_file, unpack_entry, is_legal, unless_illegal,
  unpack, unzip,
}

-- A property of the files that the reading of archives keeps, and that the making of a folder or a file
-- keeps where its path is legal, with the folder that such a file is in.
pub record Guards {W : Type 0} (P : W → Type 0) (disk : Disk W) (dest : Str) : Type 0 where
  pub open_reader : (src : Str) → Keeps P (disk.open_reader src)
  pub open_entry : (f : Entry) → Keeps P (disk.open_entry f)
  pub mkdir_all : (p : Str) → is_legal disk dest p ≡ true → Keeps P (disk.mkdir_all p)
  pub mkdir_of : (p : Str) → is_legal disk dest p ≡ true → Keeps P (disk.mkdir_all (disk.dir p))
  pub open_file : (p : Str) → is_legal disk dest p ≡ true → Keeps P (disk.open_file p)
  pub copy : (p content : Str) → is_legal disk dest p ≡ true → Keeps P (disk.copy p content)

module _ {W : Type 0} (P : W → Type 0) (disk : Disk W) (dest : Str) where
  -- The property holds of the files, and every name that is returned is legal.
  abbrev pub IsConfined : Unpacking W → Type 0
  IsConfined s = All (λ (p : Str). is_legal disk dest p ≡ true) s.filenames × P s.world

  module _ (guards : Guards P disk dest) where
    on_disk-IsConfined : {A : Type 0} (m : Exec W A) → Keeps P m → Keeps IsConfined (on_disk m)
    on_disk-IsConfined m k s (names, p) = (names, k s.world p)

    make_file-IsConfined :
        (f : Entry) (p : Str) → is_legal disk dest p ≡ true → Keeps IsConfined (make_file disk f p)
    unfolding make_file
    make_file-IsConfined f p h =
        Keeps-bind IsConfined (on_disk (disk.mkdir_all (disk.dir p))) _
          (on_disk-IsConfined (disk.mkdir_all (disk.dir p)) (guards.mkdir_of p h))
          (λ a.
            Keeps-bind IsConfined (on_disk (disk.open_file p)) _
              (on_disk-IsConfined (disk.open_file p) (guards.open_file p h))
              (λ b.
                Keeps-bind IsConfined (on_disk (disk.open_entry f)) _
                  (on_disk-IsConfined (disk.open_entry f) (guards.open_entry f))
                  (λ content. on_disk-IsConfined (disk.copy p content) (guards.copy p content h))))

    make_folder-IsConfined :
        (p : Str) → is_legal disk dest p ≡ true → Keeps IsConfined (make_folder disk p)
    unfolding make_folder
    make_folder-IsConfined p h s c =
        on_disk-IsConfined (disk.mkdir_all p) (guards.mkdir_all p h) s c

    unpack_entry-IsConfined :
        (f : Entry) (p : Str)
        → is_legal disk dest p ≡ true
        → Keeps IsConfined (unpack_entry disk f p)
    unfolding unpack_entry
    unpack_entry-IsConfined f p h s (names, q) =
        Keeps-if IsConfined f.is_dir (make_folder disk p) (make_file disk f p)
          (make_folder-IsConfined p h) (make_file-IsConfined f p h)
          (record s { filenames = s.filenames ++ p ∷ [] })
          (
            All-append (λ (p : Str). is_legal disk dest p ≡ true) s.filenames (p ∷ []) names
                (h, tt),
            q,
          )

    unless_illegal-IsConfined :
        (b : Bool) (f : Entry) (p : Str)
        → is_legal disk dest p ≡ b
        → Keeps IsConfined (unless_illegal disk b f p)
    unfolding unless_illegal
    unless_illegal-IsConfined true f p h = unpack_entry-IsConfined f p h
    unless_illegal-IsConfined false f p h = λ s c. c

    unpack-IsConfined : (files : List Entry) → Keeps IsConfined (unpack disk dest files)
    unfolding unpack
    unpack-IsConfined [] = λ s c. c
    unpack-IsConfined (f ∷ files) =
        let p : Str = disk.join dest f.name in
        Keeps-bind IsConfined (unless_illegal disk (is_legal disk dest p) f p) _
          (unless_illegal-IsConfined (is_legal disk dest p) f p refl) (λ a. unpack-IsConfined files)

    -- Whatever the names in an archive are, Unzip makes folders and files under its destination only: a
    -- property of the files that each call keeps where its path begins with the destination, or is the
    -- folder of such a path, is kept, and the names that it returns begin with the destination, beside an
    -- error too.
    pub unzip-IsConfined : (src : Str) → Keeps IsConfined (unzip disk src dest)
    unfolding unzip
    unzip-IsConfined src =
        Keeps-bind IsConfined (on_disk (disk.open_reader src)) (unpack disk dest)
          (on_disk-IsConfined (disk.open_reader src) (guards.open_reader src)) unpack-IsConfined
