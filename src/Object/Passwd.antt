-- ===== src/Object/Passwd.antt =====
-- The search of `object_passwd` in kernel/src/objects.c: which slot it picks.
use mungi.Common.{
  ℕ, zero, suc, ◌+◌, ◌≤◌, ◌<◌, ◌≡◌, ◌≢◌, Option, none, some, ◌==◌, arith, ◌⊎◌, inl, inr, Bool-cases,
}
use mungi.Object.{Object, same, empty, find_place}

-- No slot from `i` up to `n` but the slot `k` has the password.
abbrev AbsentBut : Object → ℕ → ℕ → ℕ → ℕ → Type 0
AbsentBut o p k i n = (j : ℕ) → i ≤ j → j < n → j ≢ k → o.passwd j ≢ p

module _ (o : Object) (p : ℕ) where
  pub find_place-same :
      (rounds i k n : ℕ) (c : Option ℕ)
      → i + rounds ≡ n
      → find_place o p rounds i c ≡ same k
      → (o.passwd k ≡ p) × (k < n)
  unfolding find_place
  find_place-same zero i k n none e h = ground arith
  find_place-same zero i k n (some m) e h = ground arith
  find_place-same (suc rounds) i k n none e h =
      ground (
        arith,
        find_place-same rounds (suc i) k n (some i),
        find_place-same rounds (suc i) k n none,
      )
  find_place-same (suc rounds) i k n (some m) e h =
      ground (arith, find_place-same rounds (suc i) k n (some m))

  extend :
      (i k n : ℕ) → ((i ≡ k) ⊎ (o.passwd i ≢ p)) → AbsentBut o p k (suc i) n → AbsentBut o p k i n
  extend i k n c later j lo hi ne = elim (Bool-cases (j == i)) [
    | inl here ↦ let z : j ≡ i = ground arith in rw z (ground arith)
    | inr there ↦ later j (ground arith) hi ne
  ]

  find_place-empty_from :
      (rounds i k m n : ℕ)
      → i + rounds ≡ n
      → find_place o p rounds i (some m) ≡ empty k
      → (k ≡ m) × AbsentBut o p k i n
  unfolding find_place
  find_place-empty_from zero i k m n e h = (ground arith, λ j lo hi. absurd (omega arith))
  find_place-empty_from (suc rounds) i k m n e h = elim (Bool-cases (o.passwd i == p)) [
    | inl hit ↦ ground arith
    | inr miss ↦
        let ih = find_place-empty_from rounds (suc i) k m n (omega arith) (ground arith) in
        (ih.0, extend i k n (inr (ground arith)) ih.1)
  ]

  pub find_place-empty :
      (rounds i k n : ℕ)
      → i + rounds ≡ n
      → find_place o p rounds i none ≡ empty k
      → (k < n) × AbsentBut o p k i n
  unfolding find_place
  find_place-empty zero i k n e h = ground arith
  find_place-empty (suc rounds) i k n e h = elim (Bool-cases (o.rights i == 0)) [
    | inl bare ↦
        let ih = find_place-empty_from rounds (suc i) k i n (omega arith) (ground arith) in
        (omega (arith, ih.0), extend i k n (inl (ground (arith, ih.0))) ih.1)
    | inr used ↦ elim (Bool-cases (o.passwd i == p)) [
      | inl hit ↦ ground arith
      | inr miss ↦
          let ih = find_place-empty rounds (suc i) k n (omega arith) (ground arith) in
          (ih.0, extend i k n (inr (ground arith)) ih.1)
    ]
  ]
