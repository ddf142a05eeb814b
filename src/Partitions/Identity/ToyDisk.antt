-- ===== src/Partitions/Identity/ToyDisk.antt =====
-- A file system that is a map, and key pairs that are numbers.
use das_boot.Prelude.GoMap
use das_boot.Prelude.{
  Bytes, Option, String, [], arith, eq_iff, if◌then◌else◌, is_some, none, or_error, refl, some,
  str_eq, true, ℕ, ◌==◌, ◌∷◌,
}
use das_boot.Partitions.Identity.Files.{Files, FilesLaws, FsError, no_such_file}
use das_boot.Partitions.Identity.Keys.{KeyLibrary}
use das_boot.Partitions.Identity.Location.{InfoReader}
use das_boot.Partitions.Identity.Matching.{KeyLaws}
use das_boot.Toys.{toy_x509}

-- The argument is the error of every `Mkdir`, if any.
abbrev pub toy_files : Option FsError → Files (GoMap.Map Bytes)
toy_files e = record {
  read_file = λ m p. or_error (GoMap.get m p) no_such_file;
  stat = λ m p. if is_some (GoMap.get m p) then none else some no_such_file;
  read_dir = λ m. some [];
  write_file = λ m p b. (none, GoMap.put m p b);
  remove =
      λ m p. if is_some (GoMap.get m p) then (none, GoMap.delete m p) else (some no_such_file, m);
  remove_all = λ m p. (none, GoMap.delete m p);
  mkdir = λ m p. (e, m);
}

pub toy-FilesLaws : (e : Option FsError) → FilesLaws (toy_files e)
toy-FilesLaws e = record {
  read-write_file = λ s s' p b h. ground (arith, GoMap.get-put_self s p b);
  read-write_file_other = λ s s' p q b f n h. ground (arith, GoMap.get-put s p q b, eq_iff p q);
  read-remove = λ s s' p h. ground (arith, GoMap.get-delete_self s p);
  read-remove_other = λ s s' p q f n h. ground (arith, GoMap.get-delete s p q, eq_iff p q);
  remove-missing = λ s s' p h. ground arith;
  read-mkdir = λ s s' p q f h. ground arith;
  stat-read = λ s p b h. ground arith;
}

-- A PEM block is its bytes behind a number for its type.
abbrev toy_pem_decode : Bytes → Option (String × Bytes)
toy_pem_decode [] = none
toy_pem_decode (tag ∷ b) = some (
  (if tag == 1
      then "CERTIFICATE REQUEST"
      else if tag == 2
      then "CERTIFICATE"
      else "EC PRIVATE KEY"),
  b,
)

abbrev toy_parse_key : Bytes → Option ℕ
toy_parse_key (k ∷ []) = some k
toy_parse_key _ = none

abbrev pub toy_keys : KeyLibrary ℕ
toy_keys = record {
  marshal_key = λ k. some (k ∷ []);
  parse_key = toy_parse_key;
  create_csr = λ k id. some (1 ∷ k ∷ []);
  pem_encode = λ type b.
      (if str_eq type "CERTIFICATE REQUEST" then 1 else if str_eq type "CERTIFICATE" then 2 else 3)
      ∷ b;
  pem_decode = toy_pem_decode;
  validity = λ b. (0, 1000);
  is_key_pair = λ c k. true;
}

pub toy-KeyLaws : KeyLaws toy_keys toy_x509
toy-KeyLaws = record {
  pem_decode-csr = λ der. refl;
  parse-create_csr = λ key id der h. ground arith;
}

abbrev pub toy_reader : InfoReader
toy_reader = record { parse_uuid = λ b. some b; is_metadata = λ b. true }
