-- ===== src/Stage1/Tests.antt =====
-- A run on a partition without any file, where the seeder approves at once.
use das_boot.Prelude.GoMap
use das_boot.Prelude.{Bytes, [], none, ok, refl, some, ℕ, ◌∷◌}
use das_boot.Partitions.Identity.Keys.{
  check_client_cert, client_cert, generate_client_csr, generate_client_key_pair, has_client_cert,
  has_client_csr, has_client_key, has_valid_client_cert, new_csr, read_client_csr, read_key,
  read_pem, read_typed, remove_if_there, store_client_cert,
}
use das_boot.Partitions.Identity.Matching.{no_csr}
use das_boot.Partitions.Identity.ToyDisk.{
  toy-FilesLaws, toy-KeyLaws, toy_files, toy_keys, toy_reader,
}
use das_boot.Registration.{approved, device_approved}
use das_boot.Stage1.Certified.{IsCertified, prepare_identity-IsCertified}
use das_boot.Stage1.Defs.{
  Answer, Inputs, await, check_valid_registration, csr_of, ensure_certificate, ensure_key,
  ensure_registered, is_moved, keep_location, prepare_identity, register_device, rekey, submit_csr,
}
use das_boot.Toys.{toy_x509}

abbrev toy_answer : Answer
toy_answer = ok (record {
  status = approved;
  description = device_approved "dev";
  client_certificate = 9 ∷ 5 ∷ [];
})

abbrev toy_inputs : Inputs ℕ
toy_inputs = record {
  location = none;
  location_uuid = none;
  first_key = some 5;
  second_key = some 6;
  first_time = 1;
  second_time = 2;
  third_time = 3;
  csr_device_id = "dev";
  device_id = "dev";
  check_poll = toy_answer;
  submit = λ req. toy_answer;
  polls = [];
}

abbrev run_end : GoMap.Map Bytes
run_end = (prepare_identity (toy_files none) toy_keys toy_x509 toy_reader toy_inputs []).1

prepare_identity-IsCertified_example :
    IsCertified
      (toy_files none)
      toy_keys
      toy_x509
      toy_reader
      (toy-FilesLaws none)
      toy-KeyLaws
      run_end
unfolding prepare_identity keep_location ensure_key ensure_registered ensure_certificate
    register_device submit_csr csr_of rekey await is_moved check_valid_registration has_client_key
    has_client_cert has_valid_client_cert has_client_csr generate_client_key_pair
    generate_client_csr store_client_cert remove_if_there new_csr read_key read_pem
    check_client_cert read_client_csr client_cert read_typed GoMap.get GoMap.put GoMap.delete
prepare_identity-IsCertified_example =
    prepare_identity-IsCertified (toy_files none) toy_keys toy_x509 toy_reader (toy-FilesLaws none)
      toy-KeyLaws toy_inputs [] run_end (no_csr refl refl) refl
