-- ===== src/Partitions/MountPath.antt =====
-- `unescapeMountPath` of device.go, on bytes.
use mathlib.Core.Option
use das_boot.Prelude.{
  All, Bool, Bool-cases, Bytes, Option, [], ap, arith, false, if◌then◌else◌, inl, inr, leb, none,
  not, refl, some, true, ℕ, ◌%◌, ◌&&◌, ◌*◌, ◌+◌, ◌-◌, ◌/◌, ◌<◌, ◌==◌, ◌^◌, ◌||◌, ◌∙◌, ◌∷◌, ◌≡◌, ◌≤◌,
}

abbrev pub backslash : ℕ
backslash = 92

abbrev pub is_octal : ℕ → Bool
is_octal c = leb 48 c && leb c 55

-- `v << 3 | x`, for a digit `x`, in a byte.
abbrev pub shift_in : ℕ → ℕ → ℕ
shift_in v x = (v * 8 + x) % 2 ^ 8

abbrev pub octal : ℕ → ℕ → ℕ → ℕ
octal a b c = shift_in (shift_in (a - 48) (b - 48)) (c - 48)

-- The loop over the path; `none` is a return of the path as it is.
unfoldable pub unescape_loop : Bytes → Option Bytes
unescape_loop [] = some []
unescape_loop (c ∷ []) = if c == backslash then none else some (c ∷ [])
unescape_loop (c ∷ c₁ ∷ []) = elim (c == backslash) [
  | true ↦ none
  | false ↦ Option.map (◌∷◌ c) (unescape_loop (c₁ ∷ []))
]
unescape_loop (c ∷ c₁ ∷ c₂ ∷ []) = elim (c == backslash) [
  | true ↦ none
  | false ↦ Option.map (◌∷◌ c) (unescape_loop (c₁ ∷ c₂ ∷ []))
]
unescape_loop (c ∷ c₁ ∷ c₂ ∷ c₃ ∷ s) = elim (c == backslash) [
  | true ↦ elim (is_octal c₁ && is_octal c₂ && is_octal c₃) [
    | true ↦ Option.map (◌∷◌ (octal c₁ c₂ c₃)) (unescape_loop s)
    | false ↦ none
  ]
  | false ↦ Option.map (◌∷◌ c) (unescape_loop (c₁ ∷ c₂ ∷ c₃ ∷ s))
]

abbrev has_backslash : Bytes → Bool
has_backslash [] = false
has_backslash (c ∷ s) = c == backslash || has_backslash s

unfoldable pub unescape_mount_path : Bytes → Bytes
unfolding unescape_loop
unescape_mount_path path =
    if not (has_backslash path)
    then path
    else (elim (unescape_loop path) [ none ↦ path | some s ↦ s ])

-- What the kernel does in /proc/mounts with the bytes that it escapes.
abbrev pub escape : (ℕ → Bool) → Bytes → Bytes
escape special [] = []
escape special (c ∷ s) = elim (special c) [
  | true ↦ backslash ∷ (48 + c / 64) ∷ (48 + c / 8 % 8) ∷ (48 + c % 8) ∷ escape special s
  | false ↦ c ∷ escape special s
]

octal_lem : (c : ℕ) → c < 256 → octal (48 + c / 64) (48 + c / 8 % 8) (48 + c % 8) ≡ c
octal_lem c h = omega arith

plain_step :
    (c : ℕ) (s t : Bytes)
    → (c == backslash) ≡ false
    → unescape_loop s ≡ some t
    → unescape_loop (c ∷ s) ≡ some (c ∷ t)
unfolding unescape_loop
plain_step c [] t h k = ground arith
plain_step c (c₁ ∷ []) t h k = ground arith
plain_step c (c₁ ∷ c₂ ∷ []) t h k = ground arith
plain_step c (c₁ ∷ c₂ ∷ c₃ ∷ s) t h k = ground arith

escaped_step :
    (a b c : ℕ) (s t : Bytes)
    → (is_octal a && is_octal b && is_octal c) ≡ true
    → unescape_loop s ≡ some t
    → unescape_loop (backslash ∷ a ∷ b ∷ c ∷ s) ≡ some (octal a b c ∷ t)
unfolding unescape_loop
escaped_step a b c s t h k = ground arith

octal-IsOctal : (d : ℕ) → 48 + d ≤ 55 → is_octal (48 + d) ≡ true
octal-IsOctal d h = ground arith

digits_lem :
    (c : ℕ)
    → c < 256
    → (is_octal (48 + c / 64) && is_octal (48 + c / 8 % 8) && is_octal (48 + c % 8)) ≡ true
digits_lem c h =
    let a : 48 + c / 64 ≤ 55 = omega arith in
    let b : 48 + c / 8 % 8 ≤ 55 = omega arith in
    let d : 48 + c % 8 ≤ 55 = omega arith in
    rw (octal-IsOctal (c / 64) a, octal-IsOctal (c / 8 % 8) b, octal-IsOctal (c % 8) d) refl

unescape_loop-escape :
    (special : ℕ → Bool) (path : Bytes)
    → special backslash ≡ true
    → All (λ (c : ℕ). c < 256) path
    → unescape_loop (escape special path) ≡ some path
unescape_loop-escape special [] h k = unfold unescape_loop in refl
unescape_loop-escape special (c ∷ s) h k =
    let rest = unescape_loop-escape special s h k.1 in
    elim (Bool-cases (special c)) [
      | inl yes_ ↦
          let step = escaped_step _ _ _ (escape special s) s (digits_lem c k.0) rest in
          rw (escape, yes_) (step ∙ ap (λ x. some (x ∷ s)) (octal_lem c k.0))
      | inr no_ ↦ rw (escape, no_) (plain_step c (escape special s) s (ground arith) rest)
    ]

unescape_loop-plain : (path : Bytes) → has_backslash path ≡ false → unescape_loop path ≡ some path
unescape_loop-plain [] h = unfold unescape_loop in refl
unescape_loop-plain (c ∷ s) h =
    plain_step c s s (ground arith) (unescape_loop-plain s (ground arith))

unescape_mount_path-loop :
    (path t : Bytes) → unescape_loop path ≡ some t → unescape_mount_path path ≡ t
unfolding unescape_mount_path
unescape_mount_path-loop path t h = elim (Bool-cases (has_backslash path)) [
  | inl some_ ↦ ground arith
  | inr none_ ↦ let plain = unescape_loop-plain path none_ in ground arith
]

-- However the kernel chooses the bytes that it writes as octal escapes, the backslash among them,
-- unescaping gives back any path of bytes.
pub unescape_mount_path-escape :
    (special : ℕ → Bool) (path : Bytes)
    → special backslash ≡ true
    → All (λ (c : ℕ). c < 256) path
    → unescape_mount_path (escape special path) ≡ path
unescape_mount_path-escape special path h k =
    unescape_mount_path-loop (escape special path) path (unescape_loop-escape special path h k)
