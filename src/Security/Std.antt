-- ===== src/Security/Std.antt =====
-- `do_validate_passwd_std` of kernel/src/security.c: which slot decides.
use mungi.Common.{
  ℕ, zero, suc, ◌+◌, ◌≤◌, ◌<◌, ◌≡◌, refl, sym, ◌∙◌, Bool, true, false, not, ◌&&◌, ◌||◌, ◌==◌, arith,
  inl, inr, Bool-cases,
}
use mungi.Common.Bits.{within}
use mungi.Object.{Object}
use mungi.Security.{allowed, unknown, denies, std_loop, do_validate_passwd_std}

-- The slot says nothing about the access: another password, or neither some right denied nor all
-- rights granted.
abbrev silent : Object → ℕ → ℕ → ℕ → Bool
silent o p access i =
    not (o.passwd i == p) || (not (denies access (o.rights i)) && not (within access (o.rights i)))

-- The slot allows the access.
pub record Allows (o : Object) (p access i : ℕ) : Type 0 where
  pub matching : o.passwd i ≡ p
  pub not_denied : denies access (o.rights i) ≡ false
  pub enough : within access (o.rights i) ≡ true

-- Every slot from `i` up to `n` is silent.
abbrev SilentFrom : Object → ℕ → ℕ → ℕ → ℕ → Type 0
SilentFrom o p access i n = (j : ℕ) → i ≤ j → j < n → silent o p access j ≡ true

module _ (o : Object) (p access : ℕ) where
  step_silent :
      (rounds i : ℕ)
      → silent o p access i ≡ true
      → std_loop o p access (suc rounds) i ≡ std_loop o p access rounds (suc i)
  unfolding std_loop
  step_silent rounds i h = ground arith

  step_decides :
      (rounds i r : ℕ)
      → silent o p access i ≡ false
      → std_loop o p access (suc rounds) i ≡ (allowed, r)
      → Allows o p access i × (r ≡ o.rights i)
  unfolding std_loop
  step_decides rounds i r h e = ground arith

  step-Allows :
      (rounds i : ℕ)
      → Allows o p access i
      → std_loop o p access (suc rounds) i ≡ (allowed, o.rights i)
  unfolding std_loop
  step-Allows rounds i a = ground (arith, a.matching, a.not_denied, a.enough)

  std_loop-silent :
      (rounds i n : ℕ)
      → i + rounds ≡ n
      → SilentFrom o p access i n
      → std_loop o p access rounds i ≡ (unknown, access)
  unfolding std_loop
  std_loop-silent zero i n e s = refl
  std_loop-silent (suc rounds) i n e s =
      step_silent rounds i (s i (omega arith) (omega arith))
      ∙ std_loop-silent rounds (suc i) n (omega arith) (λ j lo hi. s j (omega arith) hi)

  std_loop-first :
      (k rounds i n : ℕ)
      → i + k ≡ n
      → SilentFrom o p access i n
      → k < rounds
      → Allows o p access n
      → std_loop o p access rounds i ≡ (allowed, o.rights n)
  std_loop-first k zero i n e s h a = absurd (omega arith)
  std_loop-first zero (suc rounds) i n e s h a =
      let z : n ≡ i = omega arith in rw z (step-Allows rounds i (rw z at a))
  std_loop-first (suc k) (suc rounds) i n e s h a =
      step_silent rounds i (s i (omega arith) (omega arith))
      ∙ std_loop-first k rounds (suc i) n (omega arith) (λ j lo hi. s j (omega arith) hi)
          (omega arith) a

  -- The first slot that is not silent.
  pub record Decided (i rounds r : ℕ) : Type 0 where
    pub index : ℕ
    pub above : i ≤ index
    pub below : index < i + rounds
    pub allows : Allows o p access index
    pub granted : r ≡ o.rights index
    pub before : SilentFrom o p access i index

  std_loop-allowed :
      (rounds i r : ℕ) → std_loop o p access rounds i ≡ (allowed, r) → Decided i rounds r
  std_loop-allowed zero i r h = unfold std_loop in ground arith
  std_loop-allowed (suc rounds) i r h = elim (Bool-cases (silent o p access i)) [
    | inr speaks ↦
        let (a, e) = step_decides rounds i r speaks h in
        record {
          index = i;
          above = omega arith;
          below = omega arith;
          allows = a;
          granted = e;
          before = λ j lo hi. absurd (omega arith);
        }
    | inl quiet ↦
        let d = std_loop-allowed rounds (suc i) r (sym (step_silent rounds i quiet) ∙ h) in
        record {
          index = d.index;
          above = omega (arith, d.above);
          below = omega (arith, d.below);
          allows = d.allows;
          granted = d.granted;
          before = λ j lo hi. elim (Bool-cases (j == i)) [
            | inl here ↦ let z : j ≡ i = ground arith in rw z quiet
            | inr later ↦ d.before j (ground arith) hi
          ];
        }
  ]

  -- An access is allowed only through a slot of the object that holds the password with all the
  -- rights asked for and denies none of them, the first slot that says anything about the access;
  -- the rights handed back are that slot's.
  pub do_validate_passwd_std-allowed :
      (r : ℕ) → do_validate_passwd_std o p access ≡ (allowed, r) → Decided 0 o.n_caps r
  unfolding do_validate_passwd_std
  do_validate_passwd_std-allowed r h = std_loop-allowed o.n_caps 0 r h

  -- The first slot that says anything about the access decides, if it allows it.
  pub do_validate_passwd_std-first :
      (k : ℕ)
      → k < o.n_caps
      → SilentFrom o p access 0 k
      → Allows o p access k
      → do_validate_passwd_std o p access ≡ (allowed, o.rights k)
  unfolding do_validate_passwd_std
  do_validate_passwd_std-first k h s a = std_loop-first k o.n_caps 0 k (omega arith) s h a

  -- Where no slot says anything about the access the verdict is `unknown`.
  do_validate_passwd_std-silent :
      SilentFrom o p access 0 o.n_caps → do_validate_passwd_std o p access ≡ (unknown, access)
  unfolding do_validate_passwd_std
  do_validate_passwd_std-silent s = std_loop-silent o.n_caps 0 o.n_caps (omega arith) s
