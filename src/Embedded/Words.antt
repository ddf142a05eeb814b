-- ===== src/Embedded/Words.antt =====
-- `binary.BigEndian.Uint32` and `binary.BigEndian.AppendUint32`.
use das_boot.Prelude.{Bytes, [], arith, length, refl, ℕ, ◌%◌, ◌*◌, ◌+◌, ◌/◌, ◌<◌, ◌^◌, ◌∷◌, ◌≡◌}

-- The bytes of a 32-bit word, most significant first.
abbrev pub append_be_uint32 : ℕ → Bytes
append_be_uint32 n = (n / 2 ^ 24 % 256) ∷ (n / 2 ^ 16 % 256) ∷ (n / 2 ^ 8 % 256) ∷ (n % 256) ∷ []

-- A slice that is too short panics in Go. The callers pass four bytes.
abbrev pub be_uint32 : Bytes → ℕ
be_uint32 (a ∷ b ∷ c ∷ d ∷ _) = a * 2 ^ 24 + b * 2 ^ 16 + c * 2 ^ 8 + d
be_uint32 _ = 0

pub length-append_be_uint32 : (n : ℕ) → length (append_be_uint32 n) ≡ 4
length-append_be_uint32 n = refl

pub be_uint32-append_be_uint32 : (n : ℕ) → n < 2 ^ 32 → be_uint32 (append_be_uint32 n) ≡ n
be_uint32-append_be_uint32 n h = omega arith
