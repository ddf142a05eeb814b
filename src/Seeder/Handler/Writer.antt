-- ===== src/Seeder/Handler/Writer.antt =====
-- util.go's `errorWithJSON`, and what the handlers write to.
use das_boot.Prelude.{Bytes, List, Option, [], if◌then◌else◌, is_some, none, some, ℕ, ◌++◌, ◌∷◌}
use das_boot.Registration.{Response as RegistrationResponse}
use das_boot.Seeder.Ipam.{Response}

-- What is written to the body, one after the other: JSON documents, and contents of other types.
pub data Document : Type 0 where
  error_document : Document
  answer_document : Response → Document
  registration_document : RegistrationResponse → Document
  contents : Bytes → Document
  null_document : Document

-- `http.ResponseWriter`: only the first status counts.
pub record Writer : Type 0 where
  pub status : Option ℕ
  pub body : List Document

abbrev pub new_writer : Writer
new_writer = record { status = none; body = [] }

unfoldable pub write_header : ℕ → Writer → Writer
write_header code w = if is_some w.status then w else record w { status = some code }

-- A write without a status sets 200.
unfoldable pub write : Document → Writer → Writer
unfolding write_header
write d w = record w { status = (write_header 200 w).status; body = w.body ++ d ∷ [] }

unfoldable pub error_with_json : ℕ → Writer → Writer
unfolding write write_header
error_with_json code w = write error_document (write_header code w)
