-- ===== src/Devid/Order.antt =====
-- The order of `sort.Strings`, on bytes.
use das_boot.Prelude.{Bytes, List, [], arith, inl, inr, refl, true, ◌∷◌, ◌≡◌, ◌⊎◌}
use das_boot.Devid.Id.{bytes_leb, insert}

bytes_leb-total : (a b : Bytes) → (bytes_leb a b ≡ true) ⊎ (bytes_leb b a ≡ true)
unfolding bytes_leb
bytes_leb-total [] b = inl refl
bytes_leb-total (x ∷ a) [] = inr refl
bytes_leb-total (x ∷ a) (y ∷ b) = ground (arith, bytes_leb-total a b)

bytes_leb-antisym : (a b : Bytes) → bytes_leb a b ≡ true → bytes_leb b a ≡ true → a ≡ b
unfolding bytes_leb
bytes_leb-antisym [] [] h k = refl
bytes_leb-antisym [] (y ∷ b) h k = ground arith
bytes_leb-antisym (x ∷ a) [] h k = ground arith
bytes_leb-antisym (x ∷ a) (y ∷ b) h k = ground (arith, bytes_leb-antisym a b)

bytes_leb_trans :
    (a b c : Bytes) → bytes_leb a b ≡ true → bytes_leb b c ≡ true → bytes_leb a c ≡ true
unfolding bytes_leb
bytes_leb_trans [] b c h k = refl
bytes_leb_trans (x ∷ a) [] c h k = ground arith
bytes_leb_trans (x ∷ a) (y ∷ b) [] h k = ground arith
bytes_leb_trans (x ∷ a) (y ∷ b) (z ∷ c) h k = ground (arith, bytes_leb_trans a b c)

pub insert-insert : (a b : Bytes) (l : List Bytes) → insert a (insert b l) ≡ insert b (insert a l)
unfolding insert
insert-insert a b [] = ground (arith, bytes_leb-total a b, bytes_leb-antisym a b)
insert-insert a b (c ∷ l) = ground (
  arith,
  insert-insert a b l,
  bytes_leb-total a b,
  bytes_leb-antisym a b,
  bytes_leb_trans a b c,
  bytes_leb_trans b a c,
)
