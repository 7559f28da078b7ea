-- ===== src/Map.antt =====
-- `HashMap<u64, V>` as an association list: `get`, `insert`, `remove`, `retain`. The iteration order
-- of the Rust map, which it leaves open, is the order of the list.
use kestara_webrtc.Base.{
  ℕ, ◌<◌, ◌≤◌, ◌≡◌, refl, Bool, true, Option, none, some, List, [], ◌∷◌, arith, ◌==◌, if◌then◌else◌,
}

abbrev pub Map {ℓ} : Type ℓ → Type ℓ
Map V = List (ℕ × V)

module _ {ℓ} {V : Type ℓ} where
  unfoldable pub get : ℕ → Map V → Option V
  get k [] = none
  get k ((j, v) ∷ m) = if j == k then some v else get k m

  unfoldable pub remove : ℕ → Map V → Map V
  remove k [] = []
  remove k ((j, v) ∷ m) = if j == k then remove k m else (j, v) ∷ remove k m

  unfoldable pub insert : ℕ → V → Map V → Map V
  unfolding remove
  insert k v m = (k, v) ∷ remove k m

  pub retain : (V → Bool) → Map V → Map V
  retain p [] = []
  retain p ((j, v) ∷ m) = if p v then (j, v) ∷ retain p m else retain p m

  pub get-remove : (k j : ℕ) (m : Map V) → get j (remove k m) ≡ (if k == j then none else get j m)
  unfolding get remove
  get-remove k j [] = ground arith
  get-remove k j ((i, w) ∷ m) = ground (arith, get-remove k j m)

  pub get-insert :
      (k j : ℕ) (v : V) (m : Map V) → get j (insert k v m) ≡ (if k == j then some v else get j m)
  unfolding get insert
  get-insert k j v m = ground (arith, get-remove k j m)

  -- A kept key keeps its value, and a kept value passes the test.
  pub get-retain-none :
      (p : V → Bool) (j : ℕ) (m : Map V) → get j m ≡ none → get j (retain p m) ≡ none
  unfolding get retain
  get-retain-none p j [] h = refl
  get-retain-none p j ((i, w) ∷ m) h = ground (arith, get-retain-none p j m)

  pub get-retain-some :
      (p : V → Bool) (j : ℕ) (v : V) (m : Map V)
      → get j m ≡ some v
      → p v ≡ true
      → get j (retain p m) ≡ some v
  unfolding get retain
  get-retain-some p j v [] h e = h
  get-retain-some p j v ((i, w) ∷ m) h e = ground (arith, get-retain-some p j v m)

  pub retain_test :
      (p : V → Bool) (j : ℕ) (v : V) (m : Map V) → get j (retain p m) ≡ some v → p v ≡ true
  unfolding get retain
  retain_test p j v [] h = ground arith
  retain_test p j v ((i, w) ∷ m) h = ground (arith, retain_test p j v m)

  -- Every key lies below the bound.
  abbrev pub Below : ℕ → Map V → Type 0
  Below n [] = Unit {0}
  Below n ((k, v) ∷ m) = (k < n) × Below n m

  pub Below-mono : (a b : ℕ) (m : Map V) → a ≤ b → Below a m → Below b m
  Below-mono a b [] h w = tt
  Below-mono a b ((k, v) ∷ m) h w = (omega arith, Below-mono a b m h w.1)

  pub remove-Below : (n k : ℕ) (m : Map V) → Below n m → Below n (remove k m)
  unfolding remove
  remove-Below n k [] w = tt
  remove-Below n k ((j, v) ∷ m) w = ground (arith, remove-Below n k m w.1)

  pub insert-Below : (n k : ℕ) (v : V) (m : Map V) → k < n → Below n m → Below n (insert k v m)
  unfolding insert
  insert-Below n k v m h w = (h, remove-Below n k m w)

  pub retain-Below : (n : ℕ) (p : V → Bool) (m : Map V) → Below n m → Below n (retain p m)
  unfolding retain
  retain-Below n p [] w = tt
  retain-Below n p ((j, v) ∷ m) w = ground (arith, retain-Below n p m w.1)

  -- A key that the bound excludes is not in the map.
  pub get_above : (n k : ℕ) (m : Map V) → Below n m → n ≤ k → get k m ≡ none
  unfolding get
  get_above n k [] w h = refl
  get_above n k ((j, v) ∷ m) w h = ground (arith, get_above n k m w.1 h)

  pub get-Below : (n k : ℕ) (v : V) (m : Map V) → Below n m → get k m ≡ some v → k < n
  unfolding get
  get-Below n k v [] w h = ground arith
  get-Below n k v ((j, u) ∷ m) w h = ground (arith, get-Below n k v m w.1)

  -- No key stands twice.
  abbrev pub Distinct : Map V → Type ℓ
  Distinct [] = Unit {ℓ}
  Distinct ((k, v) ∷ m) = (get k m ≡ none) × Distinct m

  pub remove-Distinct : (k : ℕ) (m : Map V) → Distinct m → Distinct (remove k m)
  unfolding remove
  remove-Distinct k [] w = tt
  remove-Distinct k ((j, v) ∷ m) w = ground (arith, remove-Distinct k m w.1, get-remove k j m)

  pub insert-Distinct : (k : ℕ) (v : V) (m : Map V) → Distinct m → Distinct (insert k v m)
  unfolding insert
  insert-Distinct k v m w = (ground (arith, get-remove k k m), remove-Distinct k m w)

  pub retain-Distinct : (p : V → Bool) (m : Map V) → Distinct m → Distinct (retain p m)
  unfolding retain
  retain-Distinct p [] w = tt
  retain-Distinct p ((j, v) ∷ m) w =
      ground (arith, retain-Distinct p m w.1, get-retain-none p j m w.0)

  -- What is left after `retain` was there before.
  pub get-retain_old :
      (p : V → Bool) (j : ℕ) (v : V) (m : Map V)
      → Distinct m
      → get j (retain p m) ≡ some v
      → get j m ≡ some v
  unfolding get retain
  get-retain_old p j v [] w h = h
  get-retain_old p j v ((i, u) ∷ m) w h =
      ground (arith, get-retain_old p j v m w.1, get-retain-none p i m w.0)
