-- ===== src/Bridge/Checked/Steps.antt =====
-- Do blocks that follow those of `Checked`: each line takes the value of the line of the code that it
-- stands for, with the equation that it was accepted.
use mathlib.Core.Path.{◌≡◌}
use kestara_webrtc.Bridge.Checked.{Checked, valid, Accepts, Accepts-eq, ◌>>=◌ as and_then}

pub data Accepted {ℓ κ ι} {A : Type ℓ} {B : Type κ} (P : B → Type ι) (m : Checked A)
    (f : A → Checked B) : Type 0 where
  accepted : Accepted P m f

infixl 5 ◌>>=◌
pub ◌>>=◌ {ℓ κ ι} :
    {A : Type ℓ} {B : Type κ} {P : B → Type ι} {m : Checked A} {f : A → Checked B}
    → Accepted P m f
    → ((a : (a : A) × (m ≡ valid a)) → Accepts P (f a.0))
    → Accepts P (and_then m f)
◌>>=◌ {P} {m} {f} w h = Accepts-eq P m f λ a e. h (a, e)
