-- ===== src/Btree/Undo.antt =====
-- `BTIns` and then `BTDel` of kernel/lib/klibc/btree.c.
use mungi.Common.{
  ℕ, suc, ◌+◌, ◌<◌, ◌≡◌, refl, sym, ap, ◌∙◌, Bool, true, false, Option, none, some, ◌==◌, arith,
  Bool-cases, inl, inr,
}
use mathlib.Core.Path.{subst}
use mungi.Common.Arrays.{update}
use mungi.Btree.{Item, Page, leaf}
use mungi.Btree.Search.{Stored}
use mungi.Btree.Insert.{
  insert_from, bt_ins, Inserted, ended, promoted, out_of_fuel, bt_ok, bt_duplicate, bt_overlap,
  bt_alloc_fail, min_key,
}
use mungi.Btree.Insert.Good.{Adds}
use mungi.Btree.Insert.Root.{GoodTree, ReadsTree, Contains, above, bt_ins-Result}
use mungi.Btree.Insert.Lookup.{ok_Adds}
use mungi.Btree.Delete.{Tree, Deletion, del_ok}
use mungi.Btree.Pool.{PagePool}
use mungi.Btree.Given.{Place, bt_del, Ends, bt_del-Ends}
use mungi.Btree.Delete.Shape.{Shape, SomeFull}
use mungi.Btree.Delete.Root.{
  LevelRoot, LevelTree, root_least, same_kind, Deletes, taken, absent, damaged, del_root-Deletes,
}
use mungi.Btree.Levels.{Shapes, insert_from-Shapes}

LevelRoot-GoodTree : (root : Option Page) (depth : ℕ) → LevelRoot root depth → GoodTree root
LevelRoot-GoodTree none depth l = tt
LevelRoot-GoodTree (some p) depth (d, e, g, s) = g

above-Shape :
    (d : ℕ) (l r : Page) (k : ℕ)
    → Shape d min_key l
    → Shape d min_key r
    → Shape (suc d) 1 (above l k r)
unfolding update
above-Shape d l r k sl sr = (
  d,
  refl,
  omega arith,
  λ i le. elim (Bool-cases (i == 0)) [ inl first ↦ rw first sl | inr second ↦ rw second sr ],
)

ok_Shape :
    (page_key : Page → ℕ) (memory : ℕ → Bool) (root_memory : Bool) (root : Option Page) (depth : ℕ)
    (obj : Item) (q : Page) (ngb : Option Item)
    → LevelRoot root depth
    → ReadsTree page_key root
    → bt_ins page_key memory root_memory root obj ≡ some (bt_ok, some q, ngb)
    → (d : ℕ) × Shape d (root_least q) q
unfolding bt_ins
ok_Shape page_key memory true none depth obj q ngb l reads e =
    let same : leaf 0 (λ i. 0) (λ i. obj) ≡ q = ground (arith, e) in
    (0, subst (λ p. Shape 0 (root_least p) p) same (refl, omega arith))
ok_Shape page_key memory false none depth obj q ngb l reads e = absurd (ground (arith, e))
ok_Shape page_key memory root_memory (some p) depth obj q ngb (d, z, g, s) reads e =
    go (insert_from page_key memory 0 p obj) refl
      (insert_from-Shapes page_key memory 0 d (root_least p) p obj g reads s)
  where
    go :
        (x : Inserted)
        → insert_from page_key memory 0 p obj ≡ x
        → Shapes d (root_least p) x
        → (n : ℕ) × Shape n (root_least q) q
    go (ended bt_ok p' ngb') y t =
        let same : p' ≡ q = ground (arith, e, y) in
        let k = same_kind d (root_least p) p p' s t in
        (d, subst (λ x. Shape d (root_least x) x) same (subst (λ n. Shape d n p') k t))
    go (ended bt_duplicate p' ngb') y t = ground (arith, e, y)
    go (ended bt_overlap p' ngb') y t = ground (arith, e, y)
    go (ended bt_alloc_fail p' ngb') y t = ground (arith, e, y)
    go out_of_fuel y t = ground (arith, e, y)
    go (promoted l k r ngb') y (sl, sr) = elim (Bool-cases root_memory) [
      | inl some_page ↦
          let same : above l k r ≡ q = ground (arith, e, y, some_page) in
          (suc d, subst (λ x. Shape (suc d) (root_least x) x) same (above-Shape d l r k sl sr))
      | inr no_page ↦ ground (arith, e, y, no_page)
    ]

-- A tree in order whose leaves are on one level, with its pages below the root filled to 127 keys,
-- is again such a tree after BTIns has put an object into it. Full internal pages, if there are
-- any, are as BTInsert reads them.
pub bt_ins-LevelRoot :
    (page_key : Page → ℕ) (memory : ℕ → Bool) (root_memory : Bool) (root : Option Page) (depth : ℕ)
    (obj : Item) (q : Page) (ngb : Option Item)
    → LevelRoot root depth
    → ReadsTree page_key root
    → obj.base < obj.limit
    → bt_ins page_key memory root_memory root obj ≡ some (bt_ok, some q, ngb)
    → (n : ℕ) × LevelRoot (some q) n
bt_ins-LevelRoot page_key memory root_memory root depth obj q ngb l reads e h =
    let (g, a) =
      ok_Adds memory root_memory root obj q ngb _
        (bt_ins-Result page_key memory root_memory root obj (LevelRoot-GoodTree root depth l) reads
          e)
        h in
    let (d, s) = ok_Shape page_key memory root_memory root depth obj q ngb l reads h in
    (d + 1, (d, refl, g, s))

-- What is left of an insertion after the deletion of its object: the objects from before, or a page
-- was full and the tree is damaged.
pub data Undone (root : Option Page) (q : Page) (obj : Item)
    : Option (Deletion × Tree × Option Item) → Type 0 where
  undone :
      {u : Tree}
      → LevelTree u
      → ((o : Item) → Contains u.root o → Contains root o)
      → ((o : Item) → Contains root o → Contains u.root o)
      → Undone root q obj (some (del_ok, u, some obj))
  spoilt : SomeFull q → Undone root q obj none

undo :
    (root : Option Page) (q : Page) (n : ℕ) (obj : Item)
    (x : Option (Deletion × Tree × Option Item))
    → Adds (Contains root) (λ o. Stored o q) obj
    → ((o : Item) → Contains root o → ¬ (o.base ≡ obj.base))
    → Deletes (record { root = some q; depth = n }) obj.base x
    → Undone root q obj x
undo root q n obj _ a new (absent others) = absurd (others obj a.holds refl)
undo root q n obj _ a new (damaged {p} e full) =
    let same : p ≡ q = ground (arith, e) in spoilt (subst SomeFull same full)
undo root q n obj _ a new (taken {u} {obj = y} l r) =
    let same : y ≡ obj = elim (a.from y r.held) [
      | inl old ↦ absurd (new y old r.base)
      | inr e ↦ e
    ] in
    subst (λ o. Undone root q obj (some (del_ok, u, some o))) (sym same)
      (undone {u = u} l
        (λ o st. elim (a.from o (r.from o st)) [
          | inl old ↦ old
          | inr e ↦ absurd (r.gone o st (ap (λ x. x.base) e))
        ])
        (λ o old. elim (r.keeps o (a.keeps o old)) [
          | inl e ↦ absurd (new o old (ap (λ x. x.base) (e ∙ same)))
          | inr st ↦ st
        ]))

-- Where no object of the tree has the base of an object that BTIns has put into it: either BTDel
-- of that base panics, as free_page panics or reads behind its bitmap for one of the pages that
-- BTDel gives back, or it takes that object out again, and the tree has the objects from before,
-- or some page is full, and the tree is damaged. The leaves are all on one level, the pages below
-- the root have at least 127 keys, and full internal pages, if there are any, are as BTInsert
-- reads them.
pub bt_del-bt_ins :
    (page_key : Page → ℕ) (memory : ℕ → Bool) (root_memory : Bool) (root : Option Page)
    (depth n : ℕ) (obj : Item) (q : Page) (ngb : Option Item) (address : Place → ℕ)
    (pool : PagePool)
    → LevelRoot root depth
    → ReadsTree page_key root
    → obj.base < obj.limit
    → ((o : Item) → Contains root o → ¬ (o.base ≡ obj.base))
    → bt_ins page_key memory root_memory root obj ≡ some (bt_ok, some q, ngb)
    → LevelRoot (some q) n
    → Ends address pool
        (record { root = some q; depth = n })
        obj.base
        (Undone root q obj)
        (bt_del address pool (record { root = some q; depth = n }) obj.base)
bt_del-bt_ins page_key memory root_memory root depth n obj q ngb address pool l reads e new h lq =
    let t : Tree = record { root = some q; depth = n } in
    let (g, a) =
      ok_Adds memory root_memory root obj q ngb _
        (bt_ins-Result page_key memory root_memory root obj (LevelRoot-GoodTree root depth l) reads
          e)
        h in
    bt_del-Ends address pool t obj.base (Undone root q obj)
      (undo root q n obj _ a new (del_root-Deletes t obj.base lq))
