-- ===== src/Namehash/Table/Refines.antt =====
-- The hash table of lib/naming/namehash.c as one map from absolute names to values.
use mungi.Common.{
  ℕ, ◌≡◌, refl, sym, ap, ◌∙◌, true, false, Option, none, some, arith, if◌then◌else◌, Bool-cases,
  inl, inr, ◌==◌,
}
use mathlib.Core.Path.{fun_ext}
use mungi.Common.Arrays.{update}
use mungi.Common.Checked.{Checked, done, panic, ◌>>=◌}
use mungi.Common.Strings.{same, eq_of_same}
use mungi.Namehash.Path.{Name, nh_absolute}
use mungi.Namehash.Table.{
  Chain, Namehash, Memory, nh_hash, nh_mem, find_in, chain_of, with_chain, with_absolute, nh_insert,
  nh_delete, nh_find, nh_modify, found,
}
use mungi.Namehash.Table.Chain.{
  Distinct, put, insert_cell, delete_cell, modify_cell, Does, insert_in-Does, delete_in-Does,
  modify_in-Does,
}

abbrev pub Map : Type 0
Map = Name → Option ℕ

unfoldable pub view : Namehash → Map
view nhash absolute = find_in absolute (chain_of nhash absolute)

abbrev pub Valid : Namehash → Type 0
Valid nhash = (i : ℕ) → Distinct (nhash.table i)

-- An operation on the value of a name, as one on the map.
unfoldable pub at_name : (Option ℕ → ℕ × Option ℕ) → Name → Map → ℕ × Map
at_name cell absolute f = let (code, o) = cell (f absolute) in (code, put f absolute o)

same_bucket :
    (nhash : Namehash) (a b : Name)
    → same a b ≡ true
    → (nh_hash b nhash.size == nh_hash a nhash.size) ≡ true
same_bucket nhash a b h = let e = eq_of_same a b h in rw e (ground arith)

with_chain-view :
    (nhash : Namehash) (a : Name) (cell : Option ℕ → ℕ × Option ℕ) (r : ℕ × Chain)
    → Does a (chain_of nhash a) cell r
    → view (with_chain nhash a r).1 ≡ (at_name cell a (view nhash)).1
unfolding view with_chain at_name chain_of update put
with_chain-view nhash a cell r d = fun_ext λ b.
    elim (Bool-cases (nh_hash b nhash.size == nh_hash a nhash.size)) [
      | inl e ↦
          let k : nh_hash b nhash.size ≡ nh_hash a nhash.size = ground arith in
          let new = (cell (find_in a (chain_of nhash a))).1 in
          rw e (d.after b ∙ ap (λ i. if same a b then new else find_in b (nhash.table i)) (sym k))
      | inr e ↦
          let other : same a b ≡ false = ground (arith, same_bucket nhash a b) in rw (e, other)
    ]

with_chain-Valid :
    (nhash : Namehash) (a : Name) (cell : Option ℕ → ℕ × Option ℕ) (r : ℕ × Chain)
    → Valid nhash
    → Does a (chain_of nhash a) cell r
    → Valid (with_chain nhash a r).1
unfolding with_chain chain_of update
with_chain-Valid nhash a cell r v d i = elim (Bool-cases (i == nh_hash a nhash.size)) [
  | inl e ↦ rw e d.distinct
  | inr e ↦ rw e (v i)
]

with_chain-code :
    (nhash : Namehash) (a : Name) (cell : Option ℕ → ℕ × Option ℕ) (r : ℕ × Chain)
    → Does a (chain_of nhash a) cell r
    → (with_chain nhash a r).0 ≡ (at_name cell a (view nhash)).0
unfolding with_chain at_name view
with_chain-code nhash a cell r d = d.code

-- A call of the table.
pub data Call : Type 0 where
  insert : Memory → Name → ℕ → Name → Call
  delete : Memory → Name → Name → Call
  find : Memory → Name → Name → Call
  modify : Memory → Name → ℕ → Name → Call

-- The code that a call returns, and what it writes to `*value`.
abbrev pub Answer : Type 0
Answer = ℕ × Option ℕ

abbrev no_value : {A : Type 0} → ℕ × A → Checked (Answer × A)
no_value (code, x) = done ((code, none), x)

abbrev keeps : {A : Type 0} → A → Answer → Checked (Answer × A)
keeps x r = done (r, x)

unfoldable pub run : Call → Namehash → Checked (Answer × Namehash)
run (insert m name value cwd) nhash = nh_insert m nhash name value cwd >>= no_value
run (delete m name cwd) nhash = nh_delete m nhash name cwd >>= no_value
run (find m name cwd) nhash = nh_find m nhash name cwd >>= keeps nhash
run (modify m name value cwd) nhash = nh_modify m nhash name value cwd >>= no_value

-- The call on a map: nothing happens without an absolute name.
abbrev on_map : (Name → Map → Answer × Map) → Map → Option Name → Checked (Answer × Map)
on_map op f none = done ((nh_mem, none), f)
on_map op f (some absolute) = done (op absolute f)

abbrev changed : (Option ℕ → ℕ × Option ℕ) → Name → Map → Answer × Map
changed cell absolute f = let (code, g) = at_name cell absolute f in ((code, none), g)

abbrev looked_up : Name → Map → Answer × Map
looked_up absolute f = (found (f absolute), f)

abbrev operation : Call → Name → Map → Answer × Map
operation (insert m name value cwd) = changed (insert_cell m.heap value)
operation (delete m name cwd) = changed delete_cell
operation (find m name cwd) = looked_up
operation (modify m name value cwd) = changed (modify_cell value)

-- The absolute name of the call.
abbrev absolute_name : Call → Checked (Option Name)
absolute_name (insert m name value cwd) = nh_absolute m.first m.rest name cwd
absolute_name (delete m name cwd) = nh_absolute m.first m.rest name cwd
absolute_name (find m name cwd) = nh_absolute m.first m.rest name cwd
absolute_name (modify m name value cwd) = nh_absolute m.first m.rest name cwd

unfoldable pub run_spec : Call → Map → Checked (Answer × Map)
run_spec c f = absolute_name c >>= on_map (operation c) f

-- A call on the table gives what it gives on the map, and the table stays in order.
abbrev pub Agree : Checked (Answer × Namehash) → Checked (Answer × Map) → Type 0
Agree (done (r, nhash)) (done (s, f)) = (r ≡ s) × (view nhash ≡ f) × Valid nhash
Agree panic panic = Unit {0}
Agree (done _) panic = ⊥
Agree panic (done _) = ⊥

changed-Agree :
    (nhash : Namehash) (a : Name) (cell : Option ℕ → ℕ × Option ℕ) (r : ℕ × Chain)
    → Valid nhash
    → Does a (chain_of nhash a) cell r
    → Agree (no_value (with_chain nhash a r)) (done (changed cell a (view nhash)))
changed-Agree nhash a cell r v d = (
  ap (λ c. (c, none)) (with_chain-code nhash a cell r d),
  with_chain-view nhash a cell r d,
  with_chain-Valid nhash a cell r v d,
)

-- An operation that changes a chain, on the table and on the map.
with_absolute-Agree :
    (r : Checked (Option Name)) (nhash : Namehash) (cell : Option ℕ → ℕ × Option ℕ)
    (operation : Name → ℕ × Chain)
    → Valid nhash
    → ((a : Name) → Does a (chain_of nhash a) cell (operation a))
    → Agree
        (with_absolute r (λ a. with_chain nhash a (operation a)) nhash >>= no_value)
        (r >>= on_map (changed cell) (view nhash))
unfolding with_absolute
with_absolute-Agree panic nhash cell operation v d = tt
with_absolute-Agree (done none) nhash cell operation v d = (refl, refl, v)
with_absolute-Agree (done (some a)) nhash cell operation v d =
    changed-Agree nhash a cell (operation a) v (d a)

nh_find-Agree :
    (r : Checked (Option Name)) (nhash : Namehash)
    → Valid nhash
    → Agree
        (with_absolute r (λ a. found (find_in a (chain_of nhash a))) none >>= keeps nhash)
        (r >>= on_map looked_up (view nhash))
unfolding with_absolute view
nh_find-Agree panic nhash v = tt
nh_find-Agree (done none) nhash v = (refl, refl, v)
nh_find-Agree (done (some a)) nhash v = (refl, refl, v)

Valid-chain : (nhash : Namehash) (a : Name) → Valid nhash → Distinct (chain_of nhash a)
unfolding chain_of
Valid-chain nhash a v = v (nh_hash a nhash.size)

pub run-Agree :
    (c : Call) (nhash : Namehash) → Valid nhash → Agree (run c nhash) (run_spec c (view nhash))
unfolding run run_spec nh_insert nh_delete nh_find nh_modify
run-Agree (insert m name value cwd) nhash v =
    with_absolute-Agree (nh_absolute m.first m.rest name cwd) nhash (insert_cell m.heap value) _ v
      λ a. insert_in-Does m.heap a value (chain_of nhash a) (Valid-chain nhash a v)
run-Agree (delete m name cwd) nhash v =
    with_absolute-Agree (nh_absolute m.first m.rest name cwd) nhash delete_cell _ v
      λ a. delete_in-Does a (chain_of nhash a) (Valid-chain nhash a v)
run-Agree (find m name cwd) nhash v = nh_find-Agree (nh_absolute m.first m.rest name cwd) nhash v
run-Agree (modify m name value cwd) nhash v =
    with_absolute-Agree (nh_absolute m.first m.rest name cwd) nhash (modify_cell value) _ v
      λ a. modify_in-Does a value (chain_of nhash a) (Valid-chain nhash a v)
