-- ===== src/Namehash/Table/Chain.antt =====
-- The chains of lib/naming/namehash.c as maps from names to values.
use mungi.Common.{
  ℕ, ◌≡◌, refl, ap, ◌∙◌, Bool, true, false, Option, none, some, [], ◌∷◌, arith, if◌then◌else◌,
  Bool-cases, inl, inr,
}
use mungi.Common.Strings.{same, eq_of_same, same_comm}
use mungi.Namehash.Path.{Name}
use mungi.Namehash.Table.{Chain, nh_ok, nh_fail, nh_mem, insert_in, delete_in, find_in, modify_in}

-- No entry behind another one has its name.
unfoldable pub Distinct : Chain → Type 0
Distinct [] = Unit {0}
Distinct (ent ∷ chain) = (find_in ent.name chain ≡ none) × Distinct chain

-- The value of a name replaced.
unfoldable pub put : (Name → Option ℕ) → Name → Option ℕ → Name → Option ℕ
put f a o b = if same a b then o else f b

-- What the operations do to the value of the name: the code they return, and the value afterwards.
unfoldable pub insert_cell : Bool → ℕ → Option ℕ → ℕ × Option ℕ
insert_cell heap v none = if heap then (nh_ok, some v) else (nh_mem, none)
insert_cell heap v (some w) = (nh_fail, some w)

unfoldable pub delete_cell : Option ℕ → ℕ × Option ℕ
delete_cell none = (nh_fail, none)
delete_cell (some w) = (nh_ok, none)

unfoldable pub modify_cell : ℕ → Option ℕ → ℕ × Option ℕ
modify_cell v none = (nh_fail, none)
modify_cell v (some w) = (nh_ok, some v)

same_sym : (x a : Name) → same x a ≡ false → same a x ≡ false
same_sym x a h = same_comm a x ∙ h

-- Different names are not both the same as a third one.
same_apart : (x a b : Name) → same x a ≡ false → same x b ≡ true → same a b ≡ false
same_apart x a b h k = let e = eq_of_same x b k in rw (← e) (same_sym x a h)

same_both : (x a b : Name) → same x a ≡ true → same x b ≡ same a b
same_both x a b h = ap (λ y. same y b) (eq_of_same x a h)

find_same :
    (x b : Name) (chain : Chain) → find_in x chain ≡ none → same x b ≡ true → find_in b chain ≡ none
find_same x b chain h k = let e = eq_of_same x b k in rw (← e) h

-- An operation on the chain gives the code and the map that are wanted for the name.
pub record Does (a : Name) (chain : Chain) (cell : Option ℕ → ℕ × Option ℕ) (r : ℕ × Chain)
    : Type 0 where
  pub code : r.0 ≡ (cell (find_in a chain)).0
  pub after : (b : Name) → find_in b r.1 ≡ put (λ b. find_in b chain) a (cell (find_in a chain)).1 b
  pub distinct : Distinct r.1

pub insert_in-Does :
    (heap : Bool) (a : Name) (v : ℕ) (chain : Chain)
    → Distinct chain
    → Does a chain (insert_cell heap v) (insert_in heap a v chain)
unfolding insert_in find_in Distinct put insert_cell
insert_in-Does true a v [] d = record { code = refl; after = λ b. refl; distinct = (refl, tt) }
insert_in-Does false a v [] d = record { code = refl; after = λ b. ground arith; distinct = tt }
insert_in-Does heap a v (ent ∷ chain) d =
    let later = insert_in-Does heap a v chain d.1 in
    elim (Bool-cases (same ent.name a)) [
      | inl e ↦ record {
        code = rw (insert_in, find_in, e);
        after = λ b. ground (arith, same_both ent.name a b e, find_same ent.name b chain, d.0);
        distinct = rw (insert_in, e) d;
      }
      | inr e ↦ record {
        code = rw (insert_in, find_in, e, later.code);
        after = λ b. ground (arith, later.after b, same_apart ent.name a b);
        distinct = ground (arith, later.after ent.name, later.distinct, same_sym ent.name a e, d.0);
      }
    ]

pub delete_in-Does :
    (a : Name) (chain : Chain) → Distinct chain → Does a chain delete_cell (delete_in a chain)
unfolding delete_in find_in Distinct put delete_cell
delete_in-Does a [] d = record { code = refl; after = λ b. ground arith; distinct = tt }
delete_in-Does a (ent ∷ chain) d =
    let later = delete_in-Does a chain d.1 in
    elim (Bool-cases (same ent.name a)) [
      | inl e ↦ record {
        code = rw (delete_in, find_in, e);
        after = λ b. ground (arith, same_both ent.name a b e, find_same ent.name b chain, d.0);
        distinct = rw (delete_in, e) d.1;
      }
      | inr e ↦ record {
        code = rw (delete_in, find_in, e, later.code);
        after = λ b. ground (arith, later.after b, same_apart ent.name a b);
        distinct = ground (arith, later.after ent.name, later.distinct, same_sym ent.name a e, d.0);
      }
    ]

pub modify_in-Does :
    (a : Name) (v : ℕ) (chain : Chain)
    → Distinct chain
    → Does a chain (modify_cell v) (modify_in a v chain)
unfolding modify_in find_in Distinct put modify_cell
modify_in-Does a v [] d = record { code = refl; after = λ b. ground arith; distinct = tt }
modify_in-Does a v (ent ∷ chain) d =
    let later = modify_in-Does a v chain d.1 in
    elim (Bool-cases (same ent.name a)) [
      | inl e ↦ record {
        code = rw (modify_in, find_in, e);
        after = λ b. ground (arith, same_both ent.name a b e, find_same ent.name b chain, d.0);
        distinct = rw (modify_in, e) d;
      }
      | inr e ↦ record {
        code = rw (modify_in, find_in, e, later.code);
        after = λ b. ground (arith, later.after b, same_apart ent.name a b);
        distinct = ground (arith, later.after ent.name, later.distinct, same_sym ent.name a e, d.0);
      }
    ]
