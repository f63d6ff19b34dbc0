-- ===== src/Btree/Insert/Lookup.antt =====
-- `BTIns` and then `BTSearch` of kernel/lib/klibc/btree.c.
use mungi.Common.{ℕ, ◌≤◌, ◌<◌, ◌≡◌, Bool, Option, some, inl, inr, ◌⊎◌, arith}
use mungi.Btree.{Item, Page, bt_search, bt_found}
use mungi.Btree.Search.{Stored, bt_search-finds}
use mungi.Btree.Insert.{bt_ins, Retval, bt_ok}
use mungi.Btree.Insert.Good.{Good, Good-Keyed, Adds}
use mungi.Btree.Insert.Root.{
  GoodTree, ReadsTree, Contains, Result, added, same_tree, no_page, bt_ins-Result,
}

pub ok_Adds :
    (memory : ℕ → Bool) (root_memory : Bool) (root : Option Page) (obj : Item) (t : Page)
    (ngb : Option Item) (y : Option (Retval × Option Page × Option Item))
    → Result memory root_memory root obj y
    → y ≡ some (bt_ok, some t, ngb)
    → Good t × Adds (Contains root) (λ o. Stored o t) obj
ok_Adds memory root_memory root obj t ngb _ (added {q} g a) e =
    let same : q ≡ t = ground (arith, e) in (rw (← same) g, rw (← same) a)
ok_Adds memory root_memory root obj t ngb _ (same_tree (inl why) g sub sup) e =
    ground (arith, e, why)
ok_Adds memory root_memory root obj t ngb _ (same_tree (inr why) g sub sup) e =
    ground (arith, e, why)
ok_Adds memory root_memory root obj t ngb _ (no_page why) e = ground (arith, e)

-- After BTIns has put an object into a tree in order, with full internal pages, if there are any,
-- as BTInsert reads them, BTSearch finds at each address of the object that object, and at each
-- address of an object that was in the tree before still that one.
pub bt_search-bt_ins :
    (page_key : Page → ℕ) (memory : ℕ → Bool) (root_memory : Bool) (root : Option Page) (obj : Item)
    (q : Page) (ngb : Option Item) (x : Item) (k : ℕ)
    → GoodTree root
    → ReadsTree page_key root
    → obj.base < obj.limit
    → bt_ins page_key memory root_memory root obj ≡ some (bt_ok, some q, ngb)
    → Contains root x ⊎ (x ≡ obj)
    → x.base ≤ k
    → k < x.limit
    → bt_search (some q) k ≡ some (bt_found, some x)
bt_search-bt_ins page_key memory root_memory root obj q ngb x k g reads e h w lo hi =
    let (gq, a) =
      ok_Adds memory root_memory root obj q ngb _
        (bt_ins-Result page_key memory root_memory root obj g reads e) h in
    bt_search-finds k (Good-Keyed q gq) (stored a w) lo hi
  where
    stored : Adds (Contains root) (λ o. Stored o q) obj → Contains root x ⊎ (x ≡ obj) → Stored x q
    stored a (inl old) = a.keeps x old
    stored a (inr new) = rw new a.holds
