-- ===== src/Bridge/Checked.antt =====
-- `Result<_, String>` as the bridges use it, with the error's text.
pub mod Steps
use mathlib.Core.Path.{◌≡◌, transport}
use kestara_webrtc.Base.{Text, refl}

pub data Checked {ℓ} (A : Type ℓ) : Type ℓ where
  valid : A → Checked A
  invalid : Text → Checked A

infixl 5 ◌>>=◌ ◌>>◌
unfoldable pub ◌>>=◌ {ℓ κ} : {A : Type ℓ} {B : Type κ} → Checked A → (A → Checked B) → Checked B
valid a >>= f = f a
invalid e >>= f = invalid e

abbrev pub ◌>>◌ {ℓ κ} : {A : Type ℓ} {B : Type κ} → Checked A → Checked B → Checked B
m >> n = m >>= λ _. n

-- What is accepted has the property.
abbrev pub Accepts {ℓ κ} : {A : Type ℓ} → (A → Type κ) → Checked A → Type κ
Accepts P (valid a) = P a
Accepts P (invalid e) = Unit

pub Accepts-bind {ℓ κ ι} :
    {A : Type ℓ} {B : Type κ} (P : B → Type ι) (m : Checked A) (f : A → Checked B)
    → ((a : A) → Accepts P (f a))
    → Accepts P (m >>= f)
unfolding ◌>>=◌
Accepts-bind P (valid a) f h = h a
Accepts-bind P (invalid e) f h = tt

pub Accepts-eq {ℓ κ ι} :
    {A : Type ℓ} {B : Type κ} (P : B → Type ι) (m : Checked A) (f : A → Checked B)
    → ((a : A) → m ≡ valid a → Accepts P (f a))
    → Accepts P (m >>= f)
unfolding ◌>>=◌
Accepts-eq P (valid a) f h = h a refl
Accepts-eq P (invalid e) f h = tt

pub Accepts-then {ℓ κ ι ο} :
    {A : Type ℓ} {B : Type κ} {Q : A → Type ο} (P : B → Type ι) (m : Checked A) (f : A → Checked B)
    → Accepts Q m
    → ((a : A) → Q a → Accepts P (f a))
    → Accepts P (m >>= f)
unfolding ◌>>=◌
Accepts-then P (valid a) f q h = h a q
Accepts-then P (invalid e) f q h = tt

pub accepted_one {ℓ κ} :
    {A : Type ℓ} (P : A → Type κ) {m : Checked A} {a : A} → Accepts P m → m ≡ valid a → P a
accepted_one P p e = transport (λ i. Accepts P (e i)) p
