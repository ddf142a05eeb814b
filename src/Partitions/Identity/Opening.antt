-- ===== src/Partitions/Identity/Opening.antt =====
-- api_impl.go's `Open` and `Init`, and `Open` in location/api_impl.go: a partition's version file.
use das_boot.Prelude.{
  Bytes, List, Option, Result, String, [], err, if◌then◌else◌, none, not, ok, some, str_eq,
  then_write, ℕ, ◌==◌, ◌∷◌,
}
use das_boot.Partitions.Device.{
  Device, is_hedgehog_identity_partition, is_hedgehog_location_partition,
}
use das_boot.Partitions.Identity.Files.{Files, FsError, no_such_file, other_fs_error}

-- `PathError` names the operation that failed.
pub data FsOp : Type 0 where
  op_open op_stat op_read_dir op_write op_mkdir : FsOp

pub data OpenError : Type 0 where
  wrong_device uninitialized_partition already_initialized : OpenError
  bad_version_file unsupported_version : OpenError
  path_error : FsOp → FsError → OpenError
  cleaning_failed : String → FsError → OpenError

abbrev pub version_file_path : String
version_file_path = "/version"

-- Package json on a version file.
pub record VersionCodec : Type 0 where
  pub decode_version : Bytes → Option ℕ
  pub encode_version : ℕ → Bytes

abbrev pub version1 : ℕ
version1 = 1

abbrev pub path_step : {S : Type 0} → FsOp → Option FsError × S → Option OpenError × S
path_step op (none, s) = (none, s)
path_step op (some e, s) = (some (path_error op e), s)

module _ {S : Type 0} (fs : Files S) where
  -- The entries of the root but lost+found are removed.
  unfoldable pub clean : List String → S → Option OpenError × S
  clean [] s = (none, s)
  clean (name ∷ names) s =
      let (e, s') = fs.remove_all s name in
      let rest = clean names s' in
      let skipped = clean names s in
      if str_eq name "lost+found"
      then skipped
      else elim e [ none ↦ rest | some f ↦ (some (cleaning_failed name f), s') ]

  -- The two directories.
  unfoldable pub make_directories : S → Option OpenError × S
  make_directories s =
      then_write (path_step op_mkdir (fs.mkdir s "/identity"))
        (λ s'. path_step op_mkdir (fs.mkdir s' "/location"))

module _ {S : Type 0} (fs : Files S) (codec : VersionCodec) where
  -- The part that the two functions `Open` share.
  unfoldable pub check_version : S → Result OpenError (Unit {0})
  check_version s = elim (fs.read_file s version_file_path) [
    | err e ↦ elim e [
      | no_such_file ↦ err uninitialized_partition
      | other_fs_error ↦ err (path_error op_open other_fs_error)
    ]
    | ok b ↦ elim (codec.decode_version b) [
      | none ↦ err bad_version_file
      | some v ↦ if v == version1 then ok tt else err unsupported_version
    ]
  ]

  unfoldable pub open_identity_partition : Device → S → Result OpenError (Unit {0})
  open_identity_partition d s =
      if is_hedgehog_identity_partition d then check_version s else err wrong_device

  unfoldable pub open_location_partition : Device → S → Result OpenError (Unit {0})
  open_location_partition d s =
      if is_hedgehog_location_partition d then check_version s else err wrong_device

  -- A new partition's version file and directories.
  unfoldable pub write_version : S → Option OpenError × S
  write_version s =
      path_step op_write (fs.write_file s version_file_path (codec.encode_version version1))

  unfoldable pub init_empty : S → Option OpenError × S
  init_empty s = elim (fs.read_dir s) [
    | none ↦ (some (path_error op_read_dir other_fs_error), s)
    | some entries ↦
        then_write (then_write (clean fs entries s) write_version) (make_directories fs)
  ]

  unfoldable pub init : Device → S → Option OpenError × S
  init d s =
      let found = fs.stat s version_file_path in
      if not (is_hedgehog_identity_partition d) then (some wrong_device, s) else elim found [
        | none ↦ (some already_initialized, s)
        | some e ↦ elim e [
          | other_fs_error ↦ (some (path_error op_stat other_fs_error), s)
          | no_such_file ↦ init_empty s
        ]
      ]
