-- ===== src/Security/Pdx.antt =====
-- `object_pdx` of kernel/src/objects.c, and what `do_validate_passwd_pdx` of kernel/src/security.c makes
-- of the entry points afterwards.
use mungi.Common.{
  ℕ, zero, suc, ◌+◌, ◌-◌, ◌^◌, ◌≤◌, ◌<◌, ◌≡◌, refl, ◌∙◌, ◌≢◌, true, false, ◌&&◌, ◌||◌, none, some,
  ◌==◌, leb, ltb, if◌then◌else◌, arith, Bool-cases, inl, inr,
}
use mathlib.Core.Path.{subst}
use mungi.Common.Arrays.{update}
use mungi.Common.Checked.{done}
use mungi.Common.Int.{ℤ, pos, eqb_ℤ, ltb_ℤ, ◌+ℤ◌, span}
use mungi.Object.{Object, Cap}
use mungi.Object.Entries.{
  o_max_pdx, o_max_entpt, update_ℤ, copy_entries, next_entry, set_pdx_slot, find_pdx, add_pdx,
  object_pdx,
}
use mungi.Pdxcache.{Pdxcache}
use mungi.Security.{allowed, entry_loop, pdx_loop, do_validate_passwd_pdx}

-- Every entry point lies in the object.
abbrev pub AllInside : Object → (ℕ → ℕ) → ℕ → Type 0
AllInside o entrypts n = (j : ℕ) → j < n → (o.base ≤ entrypts j) × (entrypts j ≤ o.end)

pos+pos : (a b : ℕ) → (pos a +ℤ pos b) ≡ pos (a + b)
unfolding ◌+ℤ◌
pos+pos a b = ground arith

copied :
    (entrypts f : ℕ → ℕ) (m n j i : ℕ)
    → j < n
    → (if leb (m + (j + 1)) i && ltb i (m + n)
        then entrypts (i - m)
        else if eqb_ℤ (pos i) (pos (m + j))
        then entrypts j
        else f i)
      ≡ (if leb (m + j) i && ltb i (m + n) then entrypts (i - m) else f i)
copied entrypts f m n j i h = elim (Bool-cases (i == m + j)) [
  | inl same ↦
      let z : i ≡ m + j = ground arith in let back : i - m ≡ j = omega arith in ground (arith, back)
  | inr apart ↦ ground arith
]

copy_entries_lem :
    (o : Object) (entrypts : ℕ → ℕ) (m rounds j n : ℕ) (f : ℤ → ℕ)
    → j + rounds ≡ n
    → AllInside o entrypts n
    → ((copy_entries o entrypts (pos m) rounds j f).1 ≡ true)
      × ((i : ℕ)
          → (copy_entries o entrypts (pos m) rounds j f).0 (pos i)
            ≡ (if leb (m + j) i && ltb i (m + n) then entrypts (i - m) else f (pos i)))
unfolding copy_entries
copy_entries_lem o entrypts m zero j n f e w = (refl, λ i. ground arith)
copy_entries_lem o entrypts m (suc rounds) j n f e w =
    let (low, high) = w j (omega arith) in
    let inside : (ltb (entrypts j) o.base || ltb o.end (entrypts j)) ≡ false = ground arith in
    let ih =
      copy_entries_lem o entrypts m rounds (j + 1) n (update_ℤ f (pos m +ℤ pos j) (entrypts j))
        (omega arith) w in
    (
      rw inside (ih.0),
      λ i.
          rw inside
            (ih.1 i ∙ rw (pos+pos m j) (copied entrypts (λ x. f (pos x)) m n j i (omega arith))),
    )

entry_loop_finds :
    (o : Object) (proc m k rounds : ℕ)
    → k < rounds
    → o.pdx.entry (pos (m + k)) ≡ proc
    → entry_loop o proc rounds (pos m) ≡ true
unfolding entry_loop
entry_loop_finds o proc m k zero h e = absurd (omega arith)
entry_loop_finds o proc m zero (suc rounds) h e =
    let e' : o.pdx.entry (pos m) ≡ proc = subst (λ x. o.pdx.entry (pos x) ≡ proc) (omega arith) e in
    let hit : (o.pdx.entry (pos m) == proc) ≡ true = ground (arith, e') in rw hit
entry_loop_finds o proc m (suc k) (suc rounds) h e =
    elim (Bool-cases (o.pdx.entry (pos m) == proc)) [
      | inl hit ↦ rw hit
      | inr miss ↦ rw miss (
          entry_loop_finds o proc (suc m) k rounds (omega arith)
            (subst (λ x. o.pdx.entry (pos x) ≡ proc) (omega arith) e))
    ]

pdx_loop_finds :
    (o : Object) (p proc : ℕ) (rounds i n : ℕ)
    → i + rounds ≡ suc n
    → i ≤ n
    → ((j : ℕ) → j < n → o.pdx.passwd j ≢ p)
    → o.pdx.passwd n ≡ p
    → entry_loop o proc (span (o.pdx.n_entry n) (o.pdx.x_entry n)) (o.pdx.n_entry n) ≡ true
    → pdx_loop o p proc rounds i ≡ some n
unfolding pdx_loop
pdx_loop_finds o p proc zero i n e le other here hit = absurd (omega arith)
pdx_loop_finds o p proc (suc rounds) i n e le other here hit = elim (Bool-cases (i == n)) [
  | inl last ↦
      let z : i ≡ n = ground arith in
      let match : (o.pdx.passwd n == p) ≡ true = ground (arith, here) in rw (z, match, hit)
  | inr before ↦
      let miss : (o.pdx.passwd i == p) ≡ false = ground (arith, other i (ground arith)) in
      rw miss (pdx_loop_finds o p proc rounds (suc i) n (omega arith) (ground arith) other here hit)
]

find_pdx-absent :
    (o : Object) (p rounds i n : ℕ)
    → i + rounds ≡ n
    → ((j : ℕ) → j < n → o.pdx.passwd j ≢ p)
    → find_pdx o p rounds i ≡ none
unfolding find_pdx
find_pdx-absent o p zero i n e w = refl
find_pdx-absent o p (suc rounds) i n e w =
    let miss : (o.pdx.passwd i == p) ≡ false = ground (arith, w i (omega arith)) in
    rw miss (find_pdx-absent o p rounds (suc i) n (omega arith) w)

span_pos : (m n : ℕ) → span (pos m) (pos m +ℤ pos n) ≡ n
unfolding span
span_pos m n = rw (pos+pos m n) (omega arith)

module _ (o : Object) (p n m : ℕ) (clist : Cap) (entrypts : ℕ → ℕ) where
  -- The object with one more PDX slot.
  abbrev pub registered : Object
  registered = record o {
    pdx = record {
      entry = (copy_entries o entrypts (pos m) n 0 o.pdx.entry).0;
      n_entry = update o.pdx.n_entry o.n_pdx (pos m);
      x_entry = update o.pdx.x_entry o.n_pdx (pos m +ℤ pos n);
      clist = update o.pdx.clist o.n_pdx clist;
      passwd = update o.pdx.passwd o.n_pdx p;
    };
    n_pdx = o.n_pdx + 1;
  }

  set_runs :
      o.n_pdx < o_max_pdx
      → next_entry o o.n_pdx ≡ pos m
      → m + n < o_max_entpt
      → AllInside o entrypts n
      → set_pdx_slot o.n_pdx (pos n) entrypts p clist o ≡ done (registered, true)
  unfolding set_pdx_slot
  set_runs free next room inside =
      let has_slot : leb o_max_pdx o.n_pdx ≡ false = ground arith in
      let fits : ltb_ℤ (pos (m + n)) (pos o_max_entpt) ≡ true = ground arith in
      rw (
        has_slot,
        next,
        pos+pos m n,
        fits,
        (copy_entries_lem o entrypts m n 0 n o.pdx.entry (omega arith) inside).0,
      )

  registered_entry :
      (k : ℕ) → k < n → AllInside o entrypts n → registered.pdx.entry (pos (m + k)) ≡ entrypts k
  registered_entry k h inside =
      let back : m + k - m ≡ k = omega arith in
      (copy_entries_lem o entrypts m n 0 n o.pdx.entry (omega arith) inside).1 (m + k)
      ∙ ground (arith, back)

  registered_loop :
      (k : ℕ)
      → k < n
      → AllInside o entrypts n
      → ((j : ℕ) → j < o.n_pdx → o.pdx.passwd j ≢ p)
      → pdx_loop registered p (entrypts k) (o.n_pdx + 1) 0 ≡ some o.n_pdx
  unfolding update
  registered_loop k h inside fresh =
      let start : registered.pdx.n_entry o.n_pdx ≡ pos m = ground arith in
      let stop : registered.pdx.x_entry o.n_pdx ≡ (pos m +ℤ pos n) = ground arith in
      pdx_loop_finds registered p (entrypts k) (o.n_pdx + 1) 0 o.n_pdx (omega arith) (omega arith)
        (λ j l. ground (arith, fresh j l)) (ground arith)
        (rw (start, stop, span_pos m n)
          (entry_loop_finds registered (entrypts k) m k n h (registered_entry k h inside)))

  -- When object_pdx is called with a password that no PDX slot has, while a slot and room for the
  -- entry points are left, and all entry points lie in the object, it succeeds and leaves the PDX
  -- cache; the validator then allows a PDX call with that password to each of the entry points,
  -- and answers with the new slot.
  pub object_pdx-validates :
      (cache : Pdxcache) (k access : ℕ) (slot : ℤ)
      → o.n_pdx < o_max_pdx
      → next_entry o o.n_pdx ≡ pos m
      → m + n < o_max_entpt
      → AllInside o entrypts n
      → ((j : ℕ) → j < o.n_pdx → o.pdx.passwd j ≢ p)
      → k < n
      → (object_pdx o p clist n entrypts cache ≡ done (registered, cache, true))
        × (do_validate_passwd_pdx registered p access (entrypts k) slot
            ≡ record { verdict = allowed; access = access; pdx_slot = pos o.n_pdx })
  unfolding object_pdx add_pdx do_validate_passwd_pdx
  object_pdx-validates cache k access slot free next room inside fresh h =
      let has_slot : leb o_max_pdx o.n_pdx ≡ false = ground arith in
      let some_entry : (n == 0) ≡ false = ground arith in
      let small : ltb n (2 ^ 31) ≡ true = ground arith in
      (
        rw (
          find_pdx-absent o p o.n_pdx 0 o.n_pdx (omega arith) fresh,
          object_pdx,
          has_slot,
          some_entry,
          small,
          set_runs free next room inside,
        ),
        rw (do_validate_passwd_pdx, registered_loop k h inside fresh),
      )
