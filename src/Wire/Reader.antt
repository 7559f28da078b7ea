-- ===== src/Wire/Reader.antt =====
-- Reading from the front of a byte array, with `none` for the exception on a short input.
use kestara_webrtc.Base.{
  ℕ, zero, suc, ◌^◌, ◌<◌, ◌≡◌, refl, Option, none, some, List, [], ◌∷◌, ◌++◌, length,
}
use kestara_webrtc.Wire.Bytes.{
  le_bytes, be_bytes, from_le, from_be, length-le_bytes, length-be_bytes, from_le-le_bytes,
  from_be-be_bytes,
}

infixl 5 ◌>>=◌
abbrev pub ◌>>=◌ {ℓ κ} : {A : Type ℓ} {B : Type κ} → Option A → (A → Option B) → Option B
some a >>= f = f a
none >>= f = none

-- The first `k` bytes, and what follows them.
unfoldable pub read_bytes : ℕ → List ℕ → Option (List ℕ × List ℕ)
read_bytes zero bs = some ([], bs)
read_bytes (suc k) [] = none
read_bytes (suc k) (b ∷ bs) = do (front, rest) ← read_bytes k bs; some (b ∷ front, rest)

unfoldable pub read_le : ℕ → List ℕ → Option (ℕ × List ℕ)
read_le k bs = do (front, rest) ← read_bytes k bs; some (from_le front, rest)

unfoldable pub read_be : ℕ → List ℕ → Option (ℕ × List ℕ)
read_be k bs = do (front, rest) ← read_bytes k bs; some (from_be front, rest)

pub read_bytes-append : (xs rest : List ℕ) → read_bytes (length xs) (xs ++ rest) ≡ some (xs, rest)
unfolding read_bytes
read_bytes-append [] rest = refl
read_bytes-append (x ∷ xs) rest = rw (read_bytes-append xs rest)

pub read_bytes_at :
    (k : ℕ) (xs rest : List ℕ) → length xs ≡ k → read_bytes k (xs ++ rest) ≡ some (xs, rest)
read_bytes_at k xs rest e = rw (← e) (read_bytes-append xs rest)

pub read_le_bytes :
    (k n : ℕ) (rest : List ℕ) → n < 256 ^ k → read_le k (le_bytes k n ++ rest) ≡ some (n, rest)
unfolding read_le
read_le_bytes k n rest h =
    rw (read_bytes_at k (le_bytes k n) rest (length-le_bytes k n), from_le-le_bytes k n h)

pub read_be_bytes :
    (k n : ℕ) (rest : List ℕ) → n < 256 ^ k → read_be k (be_bytes k n ++ rest) ≡ some (n, rest)
unfolding read_be
read_be_bytes k n rest h =
    rw (read_bytes_at k (be_bytes k n) rest (length-be_bytes k n), from_be-be_bytes k n h)
