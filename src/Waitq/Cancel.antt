-- ===== src/Waitq/Cancel.antt =====
-- `waitq_cancel` of kernel/src/waitq.c.
use mungi.Common.{
  ℕ, zero, suc, ◌<◌, ◌≡◌, refl, sym, ap, ◌∙◌, ◌≢◌, true, false, none, some, [], ◌∷◌, ◌++◌, arith,
  ◌==◌, length,
}
use mungi.Waitq.{
  Ptr, null, Back, at_head, at_next, Node, Heap, Store, st, write, ok, fault, store, unlink,
  cancel_loop, waitq_cancel,
}
use mungi.Waitq.Chain.{
  Cells, has, node, Holds, Chain, nil, cons, IsQueue, not_null, read-ok, set_next-ok, kfree-ok,
  write-ne,
}

-- The thread waits in none of the cells.
abbrev Absent : Ptr → Cells → Type 0
Absent t [] = Unit {0}
Absent t ((_, u) ∷ xs) = (u ≢ t) × Absent t xs

-- The pointer that a chain's first node points back at can be written.
abbrev Reachable : Heap → Back → Ptr → Type 0
Reachable h at_head p = Unit {0}
Reachable h (at_next f) p = (n : Node) × Holds h f n × (f ≢ p)

cancel_skips :
    (fuel t : ℕ) (head : Ptr) {h : Heap} {b : Back} {p : Ptr} {xs : Cells}
    → Chain h b p xs
    → Absent t xs
    → length xs < fuel
    → cancel_loop fuel t p (st head h) ≡ ok tt (st head h)
unfolding cancel_loop
cancel_skips zero t head ch a f = absurd (omega arith)
cancel_skips (suc fuel) t head nil a f = refl
cancel_skips (suc fuel) t head (cons {t = u} e out ch) a f =
    let miss : (u == t) ≡ false = ground arith in
    rw (not_null e, read-ok e head, miss, read-ok e head)
      (cancel_skips fuel t head ch a.1 (omega arith))

-- With fuel for every node, cancelling a thread that does not wait in a well-formed queue ends and
-- changes nothing.
waitq_cancel-Absent :
    {s : Store} {xs : Cells} (fuel thread : ℕ)
    → IsQueue s xs
    → Absent thread xs
    → length xs < fuel
    → waitq_cancel fuel thread s ≡ ok tt s
unfolding waitq_cancel
waitq_cancel-Absent {s} fuel thread is a f = cancel_skips fuel thread s.head is a f

unlink_last :
    (head : Ptr) (h : Heap) (b : Back) (p t : Ptr)
    → Holds h p (node t null b)
    → Reachable h b p
    → (head' : Ptr) × (h' : Heap) × (unlink p (st head h) ≡ ok null (st head' h'))
unfolding unlink store
unlink_last head h at_head p t e r =
    (null, write h p none, rw (read-ok e head, read-ok e null, kfree-ok e null))
unlink_last head h (at_next f) p t e (n, held, ne) =
    let h1 = write h f (some (record n { next = null })) in
    let e1 : Holds h1 p (node t null (at_next f)) = record {
      ne_null = e.ne_null;
      content = write-ne h f p _ (λ q. ne (sym q)) ∙ e.content;
    } in
    (
      head,
      write h1 p none,
      rw (read-ok e head, set_next-ok held head null, read-ok e1 head, kfree-ok e1 head),
    )

head_has :
    {h : Heap} {b : Back} {p : Ptr} (c : Ptr × Ptr) (xs : Cells)
    → Chain h b p (xs ++ c ∷ [])
    → has p (xs ++ c ∷ []) ≡ true
head_has c [] (cons e out ch) = ground arith
head_has c (x ∷ xs) (cons e out ch) = ground arith

cancel_last :
    (fuel head t : ℕ) {h : Heap} {b : Back} {p : Ptr} (l : Ptr) (xs : Cells)
    → Chain h b p (xs ++ (l, t) ∷ [])
    → Reachable h b p
    → Absent t xs
    → length xs < fuel
    → cancel_loop fuel t p (st head h) ≡ fault
unfolding cancel_loop
cancel_last zero head t l xs ch r a f = absurd (omega arith)
cancel_last (suc fuel) head t {h} l [] (cons {b} {p} e out nil) r a f =
    let hit : (t == t) ≡ true = ground arith in
    let (head', h', gone) = unlink_last head h b p t e r in
    rw (not_null e, read-ok e head, hit, gone)
cancel_last (suc fuel) head t l (c ∷ xs) (cons {p} {q} {t = v} e out ch) r a f =
    let miss : (v == t) ≡ false = ground arith in
    rw (not_null e, read-ok e head, miss, read-ok e head)
      (cancel_last fuel head t l xs ch
        (_, e, λ i. cc (sym out ∙ ap (λ a. has a (xs ++ (l, t) ∷ [])) i ∙ head_has (l, t) xs ch))
        a.1 (omega arith))

-- When the thread to cancel waits last and nowhere else in a well-formed queue, waitq_cancel goes
-- on through NULL.
waitq_cancel-last :
    {s : Store} (xs : Cells) (fuel l thread : ℕ)
    → IsQueue s (xs ++ (l, thread) ∷ [])
    → Absent thread xs
    → length xs < fuel
    → waitq_cancel fuel thread s ≡ fault
unfolding waitq_cancel
waitq_cancel-last {s} xs fuel l thread is a f = cancel_last fuel s.head thread l xs is tt a f
