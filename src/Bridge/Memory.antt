-- ===== src/Bridge/Memory.antt =====
-- `KestaraBytes` of native/src/c_bridge.rs: the memory that a C function allocates for what it returns, and
-- that its caller frees.
use kestara_webrtc.Base.{
  ℕ, ◌≡◌, refl, Bool, true, false, Option, none, some, List, [], ◌∷◌, Text, codes, ◌==◌, length,
  if◌then◌else◌, arith, ==_self,
}
use kestara_webrtc.Map
use kestara_webrtc.Map.{Map, get-insert, get-remove}
use kestara_webrtc.Bridge.Checked.{valid, invalid}
use kestara_webrtc.Bridge.Boundary.{
  Ran, ran, panicked, Written, write_error, boundary, output_string,
}

-- A pointer is an address, 0 when it is null.
pub record KestaraBytes : Type 0 where
  pub pointer : ℕ
  pub length : ℕ

-- The blocks that are allocated, by their addresses.
abbrev pub Memory : Type 0
Memory = Map (List ℕ)

abbrev empty : KestaraBytes
empty = record { pointer = 0; length = 0 }

-- `address` is where the allocator has put the bytes.
unfoldable pub owned : (address : ℕ) → List ℕ → Memory → KestaraBytes × Memory
owned address [] m = (empty, m)
owned address (b ∷ bytes) m =
    (record { pointer = address; length = length (b ∷ bytes) }, Map.insert address (b ∷ bytes) m)

-- `Box::from_raw` and `drop`, which are defined for a block that is allocated with this length.
unfoldable pub drop_block : KestaraBytes → Option (List ℕ) → Memory → Option Memory
drop_block bytes none m = none
drop_block bytes (some block) m =
    if length block == bytes.length then some (Map.remove bytes.pointer m) else none

unfoldable pub bytes_free : KestaraBytes → Memory → Option Memory
bytes_free bytes m =
    if bytes.pointer == 0 then some m else drop_block bytes (Map.get bytes.pointer m) m

-- What the output and the error are written to, when their pointers are not null and there is something
-- to write.
pub record Returned : Type 0 where
  pub status : ℕ
  pub value : Option KestaraBytes
  pub error : Option KestaraBytes
  pub memory : Memory

unfoldable pub hand_out : (Memory → ℕ) → Option Text → Memory → Option KestaraBytes × Memory
hand_out allocate none m = (none, m)
hand_out allocate (some text) m = let (bytes, m') = owned (allocate m) text m in (some bytes, m')

unfoldable pub returned : (Memory → ℕ) → Written Text → Memory → Returned
unfolding hand_out
returned allocate w m =
    let (value, m') = hand_out allocate w.output m in
    let (error, m'') = hand_out allocate w.error m' in
    record { status = w.status; value = value; error = error; memory = m'' }

-- The operation does not run when the output pointer is null.
unfoldable pub guarded : (value_out : Bool) → Ran Text → Ran Text
guarded value_out (ran result) = ran (output_string value_out result)
guarded true panicked = panicked
guarded false panicked = ran (output_string false (valid []))

-- A C function that returns a text.
unfoldable pub call : (Memory → ℕ) → (value_out error_out : Bool) → Ran Text → Memory → Returned
unfolding returned
call allocate value_out error_out operation m =
    returned allocate (boundary error_out (guarded value_out operation)) m

-- What the caller reads.
abbrev block_of : KestaraBytes → Option (List ℕ) → Option (List ℕ)
block_of bytes none = none
block_of bytes (some block) = if length block == bytes.length then some block else none

abbrev contents : KestaraBytes → Memory → Option (List ℕ)
contents bytes m = if bytes.pointer == 0 then some [] else block_of bytes (Map.get bytes.pointer m)

abbrev pub Reads : Option KestaraBytes → Memory → Option Text → Type 0
Reads none m none = Unit
Reads (some bytes) m (some text) = contents bytes m ≡ some text
Reads _ m _ = ⊥

unfoldable pub free_written : Option KestaraBytes → Memory → Option Memory
free_written none m = some m
free_written (some bytes) m = bytes_free bytes m

free_after : Option KestaraBytes → Option Memory → Option Memory
free_after bytes none = none
free_after bytes (some m) = free_written bytes m

-- The caller frees the output and then the error.
unfoldable pub free_all : Returned → Option Memory
unfolding free_written free_after
free_all r = free_after r.error (free_written r.value r.memory)

-- The memory is again what it was.
abbrev pub Restores : Option Memory → Memory → Type 0
Restores none m = ⊥
Restores (some m') m = (k : ℕ) → Map.get k m' ≡ Map.get k m

module _ (address : ℕ) (m : Memory) (usable : (address == 0) ≡ false)
    (fresh : Map.get address m ≡ none) where
  stored : (block : List ℕ) → Map.get address (Map.insert address block m) ≡ some block
  stored block = ground (arith, get-insert address address block m, ==_self address)

  owned-Reads :
      (text : Text) → Reads (some (owned address text m).0) (owned address text m).1 (some text)
  unfolding owned
  owned-Reads [] = refl
  owned-Reads (b ∷ bytes) = rw (usable, stored (b ∷ bytes), ==_self (length (b ∷ bytes))) refl

  unchanged :
      (block : List ℕ) (k : ℕ)
      → Map.get k (Map.remove address (Map.insert address block m)) ≡ Map.get k m
  unchanged block k = ground (
    arith,
    get-remove address k (Map.insert address block m),
    get-insert address k block m,
    fresh,
  )

  owned-Restores :
      (text : Text) → Restores (bytes_free (owned address text m).0 (owned address text m).1) m
  unfolding owned bytes_free drop_block
  owned-Restores [] = λ k. refl
  owned-Restores (b ∷ bytes) =
      rw (usable, stored (b ∷ bytes), ==_self (length (b ∷ bytes))) (unchanged (b ∷ bytes))

free_after-none :
    (left : Option Memory) (m : Memory) → Restores left m → Restores (free_after none left) m
unfolding free_after free_written
free_after-none none m h = h
free_after-none (some m') m h = h

-- The error is written if its pointer is not null.
abbrev pub Reports : (error_out : Bool) → ℕ → Text → Returned → Type 0
Reports true status text r =
    (r.status ≡ status) × (r.value ≡ none) × Reads r.error r.memory (some text)
Reports false status text r = (r.status ≡ status) × (r.value ≡ none) × (r.error ≡ none)

-- What the caller is promised of an operation that ran or panicked.
abbrev pub Promised : (value_out error_out : Bool) → Ran Text → Returned → Type 0
Promised false error_out operation r =
    Reports error_out 1 (codes "The value output pointer is null") r
Promised true error_out (ran (valid text)) r =
    (r.status ≡ 0) × Reads r.value r.memory (some text) × (r.error ≡ none)
Promised true error_out (ran (invalid e)) r = Reports error_out 1 e r
Promised true error_out panicked r =
    Reports error_out 2 (codes "The native WebRTC boundary panicked") r

module _ (allocate : Memory → ℕ) (m : Memory) (usable : (allocate m == 0) ≡ false)
    (fresh : Map.get (allocate m) m ≡ none) where
  abbrev Kept : (value_out error_out : Bool) → Ran Text → Returned → Type 0
  Kept value_out error_out operation r =
      Promised value_out error_out operation r × Restores (free_all r) m

  reports :
      (error_out : Bool) (status : ℕ) (e : Text)
      → let r =
          returned allocate
            (record { status = status; output = none; error = write_error error_out e })
            m in
        Reports error_out status e r × Restores (free_all r) m
  unfolding returned hand_out write_error free_all free_written
  reports true status e = (
    (refl, refl, owned-Reads (allocate m) m usable fresh e),
    owned-Restores (allocate m) m usable fresh e,
  )
  reports false status e = ((refl, refl, refl), λ k. refl)

  call-Kept :
      (value_out error_out : Bool) (operation : Ran Text)
      → Kept value_out error_out operation (call allocate value_out error_out operation m)
  unfolding call returned hand_out guarded output_string boundary free_all free_written
  call-Kept true error_out (ran (valid text)) = (
    (refl, owned-Reads (allocate m) m usable fresh text, refl),
    free_after-none _ m (owned-Restores (allocate m) m usable fresh text),
  )
  call-Kept true error_out (ran (invalid e)) = reports error_out 1 e
  call-Kept true error_out panicked =
      reports error_out 2 (codes "The native WebRTC boundary panicked")
  call-Kept false error_out (ran result) =
      reports error_out 1 (codes "The value output pointer is null")
  call-Kept false error_out panicked =
      reports error_out 1 (codes "The value output pointer is null")

-- A C function that returns a text does what is promised on every branch, be its operation accepted,
-- refused or panicking, and its pointers null or not: the status, the bytes that the caller reads through
-- the output or the error, and nothing written to the other. When the caller has freed once what was
-- written, which is then defined, the memory is as it was before the call. The allocator gives an address
-- that is not null and not in use.
pub texts_owned :
    (allocate : Memory → ℕ) (m : Memory) (value_out error_out : Bool) (operation : Ran Text)
    → (allocate m == 0) ≡ false
    → Map.get (allocate m) m ≡ none
    → let r = call allocate value_out error_out operation m in
      Promised value_out error_out operation r × Restores (free_all r) m
texts_owned allocate m value_out error_out operation usable fresh =
    call-Kept allocate m usable fresh value_out error_out operation
