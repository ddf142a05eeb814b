-- ===== src/Embedded/Layout.antt =====
-- Where the parts of a file with an embedded configuration stand, and what `locate_content` finds.
use das_boot.Prelude.{
  Bytes, List, [], ap, append_assoc, arith, bytes_equal, drop, drop-append, err, get_elem?,
  get_elem?-append, length, length-append, ok, refl, some, take, take-append, ℕ, ◌++◌, ◌+◌, ◌-◌,
  ◌<◌, ◌^◌, ◌∙◌, ◌∷◌, ◌≡◌, ◌≤◌,
}
use das_boot.Embedded.Codec.{
  exe_too_small, header_content_size, header_magic_size, header_signature_size, header_size,
  header_version1, header_version_size, magic,
}
use das_boot.Embedded.Read.{locate_content, slice}
use das_boot.Embedded.Words.{append_be_uint32, be_uint32, be_uint32-append_be_uint32}

-- The bytes of the diagram at the top of embedded.go.
abbrev pub image : Bytes → Bytes → Bytes → Bytes
image exe content sig =
    (exe ++ (content ++ append_be_uint32 (length content))) ++ (sig ++ (header_version1 ∷ magic))

module _ {ℓ} {A : Type ℓ} where
  pub drop_at : (n : ℕ) (xs ys : List A) → n ≡ length xs → drop n (xs ++ ys) ≡ ys
  drop_at n xs ys h = rw h (drop-append xs ys)

  pub take_at : (n : ℕ) (xs ys : List A) → n ≡ length xs → take n (xs ++ ys) ≡ xs
  take_at n xs ys h = rw h (take-append xs ys)

image_at_size :
    (exe content sig : Bytes)
    → image exe content sig
      ≡ (exe ++ content)
        ++ (append_be_uint32 (length content) ++ (sig ++ (header_version1 ∷ magic)))
image_at_size exe content sig = simp append_assoc

image_at_version :
    (exe content sig : Bytes)
    → image exe content sig
      ≡ ((exe ++ (content ++ append_be_uint32 (length content))) ++ sig)
        ++ (header_version1 ∷ magic)
image_at_version exe content sig = simp append_assoc

image_at_magic :
    (exe content sig : Bytes)
    → image exe content sig
      ≡ ((exe ++ (content ++ append_be_uint32 (length content))) ++ (sig ++ (header_version1 ∷ [])))
        ++ magic
image_at_magic exe content sig = simp append_assoc

-- The last bytes of a file that ends in `ys`.
drop_at' : (xs ys : Bytes) {zs : Bytes} → zs ≡ xs ++ ys → drop (length zs - length ys) zs ≡ ys
drop_at' xs ys h = rw h (drop_at _ xs ys (omega (arith, length-append xs ys)))

get_at :
    (xs : Bytes) (y : ℕ) (ys : Bytes) (n : ℕ) {zs : Bytes}
    → zs ≡ xs ++ (y ∷ ys)
    → n ≡ length xs
    → get_elem? zs n ≡ some y
get_at xs y ys n h k = rw (h, k) (get_elem?-append xs y ys)

-- The checks pass on a file with the four facts that they test.
pub locate_content_of :
    {V : Type 0} (file : Bytes) (start size : ℕ)
    → length file ≡ start + header_size
    → drop (length file - header_magic_size) file ≡ magic
    → get_elem? file (length file - header_magic_size - header_version_size) ≡ some header_version1
    → be_uint32 (slice file start (start + header_content_size)) ≡ size
    → size < start
    → locate_content {V = V} file ≡ ok (start, start - size, size)
unfolding locate_content bytes_equal
locate_content_of file start size long at_end version sized before =
    let from : length file - header_size ≡ start = omega arith in
    rw (at_end, version, from, sized) (ground arith)

-- They refuse it where the content would reach back to the start of the file, or further.
pub locate_content_short :
    {V : Type 0} (file : Bytes) (start size : ℕ)
    → length file ≡ start + header_size
    → drop (length file - header_magic_size) file ≡ magic
    → get_elem? file (length file - header_magic_size - header_version_size) ≡ some header_version1
    → be_uint32 (slice file start (start + header_content_size)) ≡ size
    → start ≤ size
    → locate_content {V = V} file ≡ err exe_too_small
unfolding locate_content bytes_equal
locate_content_short file start size long at_end version sized before =
    let from : length file - header_size ≡ start = omega arith in
    rw (at_end, version, from, sized) (ground arith)

module _ (exe content sig : Bytes) (sized : length sig ≡ header_signature_size) where
  pub length-image : length (image exe content sig) ≡ length exe + length content + header_size
  length-image = omega (
    arith,
    length-append (exe ++ (content ++ append_be_uint32 (length content)))
        (sig ++ (header_version1 ∷ magic)),
    length-append exe (content ++ append_be_uint32 (length content)),
    length-append content (append_be_uint32 (length content)),
    length-append sig (header_version1 ∷ magic),
    sized,
  )

  abbrev signed : Bytes
  signed = exe ++ (content ++ append_be_uint32 (length content))

  pub length-signed : length signed ≡ length exe + length content + header_content_size
  length-signed = omega (
    arith,
    length-append exe (content ++ append_be_uint32 (length content)),
    length-append content (append_be_uint32 (length content)),
  )

  pub take-image :
      (n : ℕ)
      → n ≡ length exe + length content + header_content_size
      → take n (image exe content sig) ≡ signed
  take-image n h = take_at n signed _ (omega (arith, length-signed))

  pub signature_slice :
      (n : ℕ)
      → n ≡ length exe + length content + header_content_size
      → slice (image exe content sig) n (n + header_signature_size) ≡ sig
  signature_slice n h =
      rw (drop_at n signed (sig ++ (header_version1 ∷ magic)) (omega (arith, length-signed)))
        (take_at _ sig _ (omega (arith, sized)))

  pub content_slice :
      slice (image exe content sig) (length exe) (length exe + length content) ≡ content
  content_slice =
      rw (append_assoc exe)
        (rw (drop-append exe) (rw (append_assoc content) (take_at _ content _ (omega arith))))

  size_slice :
      (n : ℕ)
      → n ≡ length exe + length content
      → slice (image exe content sig) n (n + header_content_size)
        ≡ append_be_uint32 (length content)
  size_slice n h = rw (image_at_size exe content sig) (
      rw (drop_at n (exe ++ content) _ (omega (arith, length-append exe content)))
        (take_at _ (append_be_uint32 (length content)) _ (omega arith)))

  magic_suffix :
      drop (length (image exe content sig) - header_magic_size) (image exe content sig) ≡ magic
  magic_suffix =
      drop_at' (signed ++ (sig ++ (header_version1 ∷ []))) magic (image_at_magic exe content sig)

  version_byte :
      get_elem?
        (image exe content sig)
        (length (image exe content sig) - header_magic_size - header_version_size)
      ≡ some header_version1
  version_byte =
      get_at (signed ++ sig) header_version1 magic _ (image_at_version exe content sig)
        (omega (arith, length-image, length-append signed sig, length-signed, sized))

  -- The header's checks find the parts again, if there is at least one byte in front of the content.
  pub locate_content-image :
      {V : Type 0}
      → 0 < length exe
      → length content < 2 ^ 32
      → locate_content {V = V} (image exe content sig)
        ≡ ok (length exe + length content, length exe, length content)
  locate_content-image h k =
      locate_content_of (image exe content sig) (length exe + length content) (length content)
        length-image magic_suffix version_byte
        (rw (size_slice _ refl) (be_uint32-append_be_uint32 (length content) k)) (omega arith)
      ∙ ap (λ s. ok (length exe + length content, s, length content)) (omega arith)

pub locate_content-no_executable :
    {V : Type 0} (content sig : Bytes)
    → length sig ≡ header_signature_size
    → length content < 2 ^ 32
    → locate_content {V = V} (image [] content sig) ≡ err exe_too_small
locate_content-no_executable content sig sized k =
    locate_content_short (image [] content sig) (length content) (length content)
      (omega (arith, length-image [] content sig sized)) (magic_suffix [] content sig sized)
      (version_byte [] content sig sized)
      (rw (size_slice [] content sig sized (length content) (omega arith))
        (be_uint32-append_be_uint32 (length content) k))
      (omega arith)
