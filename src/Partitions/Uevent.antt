-- ===== src/Partitions/Uevent.antt =====
-- uevent.go: the key-value pairs of a "uevent" file.
use das_boot.Prelude.GoMap
use Prim.Native.Nat.{bit_and}
use das_boot.Prelude.{
  Bool, Option, Result, String, false, min, none, ok, or_error, some, str_eq, ℕ, ◌%◌, ◌==◌, ◌>>=◌,
  ◌^◌,
}

abbrev pub Uevent : Type 0
Uevent = GoMap.Map String

-- `strconv.ParseUint(val, 0, bits)`, which is not modelled, as an argument.
abbrev pub ParseUint : Type 0
ParseUint = String → ℕ → Option ℕ

-- A partition number, or the answer -1.
pub data Number : Type 0 where
  number : ℕ → Number
  minus_one : Number

abbrev entry_is : Option String → String → Bool
entry_is none value = false
entry_is (some v) value = str_eq v value

unfoldable pub is_disk : Uevent → Bool
is_disk u = entry_is (GoMap.get u "DEVTYPE") "disk"

unfoldable pub is_partition : Uevent → Bool
is_partition u = entry_is (GoMap.get u "DEVTYPE") "partition"

abbrev parsed_number : Option ℕ → Number
parsed_number none = minus_one
parsed_number (some n) = number n

unfoldable pub partition_number : ParseUint → Uevent → Number
partition_number parse u = elim (GoMap.get u "PARTN") [
  | none ↦ minus_one
  | some val ↦ parsed_number (parse val 8)
]

abbrev text_or_empty : Option String → String
text_or_empty none = ""
text_or_empty (some v) = v

unfoldable pub partition_name : Uevent → String
partition_name u = text_or_empty (GoMap.get u "PARTNAME")

pub data ReadFailure : Type 0 where
  incomplete_uevent parsing_major parsing_minor : ReadFailure

unfoldable pub major_minor : ParseUint → Uevent → Result ReadFailure (ℕ × ℕ)
major_minor parse u = do
  maj ← or_error (GoMap.get u "MAJOR") incomplete_uevent
  min ← or_error (GoMap.get u "MINOR") incomplete_uevent
  major ← or_error (parse maj 32) parsing_major
  minor ← or_error (parse min 32) parsing_minor
  ok (major % 2 ^ 32, minor % 2 ^ 32)

-- `mode&s_ifmt == s_ifblk`
unfoldable pub is_block_mode : ℕ → Bool
is_block_mode mode = bit_and mode 0o170000 == 0o060000
