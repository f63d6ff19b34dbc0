-- ===== src/Btree/Delete/Lookup.antt =====
-- `BTDel` and then `BTSearch` of kernel/lib/klibc/btree.c.
use mungi.Common.{ℕ, ◌≤◌, ◌<◌, ◌≡◌, sym, ap, ◌∙◌, Option, none, some, true, arith, inl, inr}
use mathlib.Core.Path.{subst}
use mungi.Common.Checked.{done}
use mungi.Btree.{Item, Page, obj_match, bt_search, Status, bt_found, bt_not_found}
use mungi.Btree.Search.{Stored, bt_search-finds, Answers, yes, no, bt_search-Answers}
use mungi.Btree.Insert.Good.{Good, Good-Keyed}
use mungi.Btree.Insert.Root.{Contains}
use mungi.Btree.Delete.{Tree, Deletion, del_root, del_ok}
use mungi.Btree.Pool.{PagePool}
use mungi.Btree.Given.{Place, bt_del, bt_del-done}
use mungi.Btree.Delete.Shape.{Removes}
use mungi.Btree.Delete.Root.{
  LevelTree, LevelRoot, Deletes, taken, absent, damaged, del_root-Deletes,
}

-- What the search at an address of an object gives once the object with the key is gone.
pub data Kept (o : Item) (k : ℕ) : Option (Status × Option Item) → Type 0 where
  stays : ¬ (o.base ≡ k) → Kept o k (some (bt_found, some o))
  taken_out : {y : Option Item} → o.base ≡ k → Kept o k (some (bt_not_found, y))

pub taken_Removes :
    (t u : Tree) (k : ℕ) (obj : Item) (x : Option (Deletion × Tree × Option Item))
    → Deletes t k x
    → x ≡ some (del_ok, u, some obj)
    → LevelTree u × Removes (Contains t.root) (Contains u.root) k obj
taken_Removes t u k obj _ (taken {u = v} {obj = y} l r) e =
    let s : v ≡ u = ground (arith, e) in
    let i : y ≡ obj = ground (arith, e) in (subst LevelTree s l, rw (← s, ← i) r)
taken_Removes t u k obj _ (absent others) e = ground (arith, e)
taken_Removes t u k obj _ (damaged root full) e = ground (arith, e)

-- At an address of two objects of a tree in order they are the same.
one_object :
    (p : Page) (o y : Item) (a : ℕ)
    → Good p
    → Stored o p
    → Stored y p
    → o.base ≤ a
    → a < o.limit
    → obj_match y a ≡ true
    → o ≡ y
one_object p o y a g so sy lo hi m =
    let e = bt_search-finds a (Good-Keyed p g) so lo hi in
    let f = bt_search-finds a (Good-Keyed p g) sy (ground (arith, m)) (ground (arith, m)) in
    ground (arith, e, f)

contained_once :
    (root : Option Page) (depth : ℕ) (o y : Item) (a : ℕ)
    → LevelRoot root depth
    → Contains root o
    → Contains root y
    → o.base ≤ a
    → a < o.limit
    → obj_match y a ≡ true
    → o ≡ y
contained_once none depth o y a l so sy lo hi m = elim so [ ]
contained_once (some p) depth o y a (d, e, g, s) so sy lo hi m = one_object p o y a g so sy lo hi m

search_after :
    (old new : Option Page) (depth depth' k a : ℕ) (o obj : Item)
    → LevelRoot old depth
    → LevelRoot new depth'
    → Removes (Contains old) (Contains new) k obj
    → Contains old o
    → o.base ≤ a
    → a < o.limit
    → Kept o k (bt_search new a)
unfolding bt_search
search_after old none depth depth' k a o obj l l' r st lo hi = elim (r.keeps o st) [
  | inl e ↦ taken_out (ap (λ x. x.base) e ∙ r.base)
  | inr s ↦ elim s [ ]
]
search_after old (some q) depth depth' k a o obj l (d, e, g, s) r st lo hi = elim (r.keeps o st) [
  | inr kept ↦ rw (bt_search-finds a (Good-Keyed q g) kept lo hi) (stays (r.gone o kept))
  | inl same ↦
      answer (bt_search (some q) a) (bt_search-Answers a q (Good-Keyed q g))
        (ap (λ x. x.base) same ∙ r.base)
]
  where
    answer : (x : Option (Status × Option Item)) → Answers q a x → o.base ≡ k → Kept o k x
    answer _ (no y others) b = taken_out b
    answer _ (yes y sy m) b = absurd (
        r.gone y sy
          (ap (λ x. x.base) (sym (contained_once old depth o y a l st (r.from y sy) lo hi m)) ∙ b))

-- Where BTDel returns with the object that it has taken out of a tree in order, all of whose
-- leaves are on one level and whose pages below the root have at least 127 keys, BTSearch finds
-- none at the addresses of that object, and at an address of any other object of the tree still
-- that one.
pub bt_search-bt_del :
    (address : Place → ℕ) (pool rest : PagePool) (t u : Tree) (k a : ℕ) (obj o : Item)
    → LevelTree t
    → bt_del address pool t k ≡ done (rest, some (del_ok, u, some obj))
    → Contains t.root o
    → o.base ≤ a
    → a < o.limit
    → Kept o k (bt_search u.root a)
bt_search-bt_del address pool rest t u k a obj o l e st lo hi =
    let (l', r) =
      taken_Removes t u k obj (del_root t k) (del_root-Deletes t k l)
        (bt_del-done address pool rest t k (some (del_ok, u, some obj)) e) in
    search_after t.root u.root t.depth u.depth k a o obj l l' r st lo hi
