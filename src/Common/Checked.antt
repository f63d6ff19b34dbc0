-- ===== src/Common/Checked.antt =====
-- Code that may fail an `assert`.
use mathlib.Core.Path.{◌≡◌, refl}

-- What a failed `assert` leaves is `panic`.
pub data Checked (A : Type 0) : Type 0 where
  done : A → Checked A
  panic : Checked A

infixl 5 ◌>>=◌
abbrev pub ◌>>=◌ : {A B : Type 0} → Checked A → (A → Checked B) → Checked B
done a >>= k = k a
panic >>= k = panic

pub >>=-eq-done :
    {A B : Type 0} (m : Checked A) (f : A → Checked B) {b : B}
    → (m >>= f) ≡ done b
    → (a : A) × (m ≡ done a) × (f a ≡ done b)
>>=-eq-done (done a) f h = (a, refl, h)
>>=-eq-done panic f h = cc
