-- ===== src/Partitions/Identity/Files.antt =====
-- pkg/partitions/fs.go's interface `FS`, over the state `S` of a mounted file system.
use das_boot.Prelude.{Bytes, List, Option, Result, String, err, false, none, ok, some, str_eq, ◌≡◌}

pub data FsError : Type 0 where
  no_such_file other_fs_error : FsError

-- An operation that writes returns its error, if any, and the next state. `write_file` is `OpenFile`
-- with create and truncate, and `Write`. `read_dir` lists the root.
pub record Files (S : Type 0) : Type 0 where
  pub read_file : S → String → Result FsError Bytes
  pub stat : S → String → Option FsError
  pub read_dir : S → Option (List String)
  pub write_file : S → String → Bytes → Option FsError × S
  pub remove : S → String → Option FsError × S
  pub remove_all : S → String → Option FsError × S
  pub mkdir : S → String → Option FsError × S

-- What is used of a file system.
pub record FilesLaws {S : Type 0} (fs : Files S) : Type 0 where
  pub read-write_file :
      (s s' : S) (p : String) (b : Bytes)
      → fs.write_file s p b ≡ (none, s')
      → fs.read_file s' p ≡ ok b
  -- whether it succeeds or not, a write concerns its file only
  pub read-write_file_other :
      (s s' : S) (p q : String) (b : Bytes) (e : Option FsError)
      → str_eq p q ≡ false
      → fs.write_file s p b ≡ (e, s')
      → fs.read_file s' q ≡ fs.read_file s q
  pub read-remove :
      (s s' : S) (p : String) → fs.remove s p ≡ (none, s') → fs.read_file s' p ≡ err no_such_file
  pub read-remove_other :
      (s s' : S) (p q : String) (e : Option FsError)
      → str_eq p q ≡ false
      → fs.remove s p ≡ (e, s')
      → fs.read_file s' q ≡ fs.read_file s q
  pub remove-missing :
      (s s' : S) (p : String)
      → fs.remove s p ≡ (some no_such_file, s')
      → (s' ≡ s) × (fs.read_file s p ≡ err no_such_file)
  pub read-mkdir :
      (s s' : S) (p q : String) (e : Option FsError)
      → fs.mkdir s p ≡ (e, s')
      → fs.read_file s' q ≡ fs.read_file s q
  pub stat-read : (s : S) (p : String) (b : Bytes) → fs.read_file s p ≡ ok b → fs.stat s p ≡ none
