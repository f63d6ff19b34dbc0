-- ===== src/Waitq/Add.antt =====
-- `waitq_add` of kernel/src/waitq.c.
use mungi.Common.{
  ℕ, zero, suc, ◌<◌, ◌≡◌, refl, sym, ap, ◌∙◌, ◌≢◌, true, false, none, some, [], ◌∷◌, ◌++◌, arith,
  ◌==◌, length,
}
use mungi.Waitq.{
  Ptr, null, Back, at_head, at_next, Node, Heap, Store, st, write, ok, last, Block, waitq_add,
}
use mungi.Waitq.Chain.{
  Cells, has, node, Holds, Chain, nil, cons, IsQueue, not_null, read-ok, frame-write, eq_null,
  not_has_of_none, Holds-write, Returns, returns, set_next-ok, set_pprev-ok, write-ne,
}

-- The last cell of a list that is not empty.
abbrev last_cell : Ptr × Ptr → Cells → Ptr
last_cell (p, _) [] = p
last_cell _ (c ∷ xs) = last_cell c xs

last-ok :
    (fuel head : ℕ) {h : Heap} {b : Back} {p : Ptr} {c : Ptr × Ptr} {xs : Cells}
    → Chain h b p (c ∷ xs)
    → length xs < fuel
    → last fuel p (st head h) ≡ ok (last_cell c xs) (st head h)
unfolding last
last-ok zero head ch f = absurd (omega arith)
last-ok (suc fuel) head (cons e out nil) f = rw (not_null e, read-ok e head)
last-ok (suc fuel) head (cons e out (cons e' out' ch)) f =
    rw (not_null e, read-ok e head, not_null e') (last-ok fuel head (cons e' out' ch) (omega arith))

has-snoc :
    (a fresh t : Ptr) (xs : Cells)
    → has a xs ≡ false
    → a ≢ fresh
    → has a (xs ++ (fresh, t) ∷ []) ≡ false
has-snoc a fresh t [] out ne = ground arith
has-snoc a fresh t (x ∷ xs) out ne = ground (arith, has-snoc a fresh t xs)

-- The last node of a chain, and what a change of its `next` field makes of the chain.
record LastNode (h : Heap) (b : Back) (p : Ptr) (xs : Cells) (fresh t l : Ptr) : Type 0 where
  contents : Node
  held : Holds h l contents
  inside : has l xs ≡ true
  linked :
      (g : Heap)
      → g l ≡ some (record contents { next = fresh })
      → Holds g fresh (node t null (at_next l))
      → ((a : Ptr) → has a xs ≡ true → a ≢ l → g a ≡ h a)
      → Chain g b p (xs ++ (fresh, t) ∷ [])

last_node :
    (fresh t : Ptr) {h : Heap} {b : Back} {p : Ptr} {c : Ptr × Ptr} {xs : Cells}
    → Chain h b p (c ∷ xs)
    → has fresh (c ∷ xs) ≡ false
    → LastNode h b p (c ∷ xs) fresh t (last_cell c xs)
last_node fresh t (cons {b} {p} {t = u} e out nil) new = record {
  contents = node u null b;
  held = e;
  inside = ground arith;
  linked = λ g here there same.
      cons (record { ne_null = e.ne_null; content = here }) (ground arith) (cons there refl nil);
}
last_node fresh t (cons {p} e out (cons {p = q} {t = u} {xs} e' out' ch)) new =
    let rest = last_node fresh t (cons e' out' ch) (ground arith) in
    let l = last_cell (q, u) xs in
    let apart : p ≢ l = λ eq. cc (sym out ∙ ap (λ a. has a ((q, u) ∷ xs)) eq ∙ rest.inside) in
    record {
      contents = rest.contents;
      held = rest.held;
      inside = ground (arith, rest.inside);
      linked = λ g here there same.
          cons (record { ne_null = e.ne_null; content = same p (ground arith) apart ∙ e.content })
            (has-snoc p fresh t ((q, u) ∷ xs) out (ground arith))
            (rest.linked g here there λ a i ne. same a (ground arith) ne);
    }

-- The queue after `thread` joined it in the node at `fresh`, and what is unchanged.
pub record Joined (s : Store) (xs : Cells) (fresh thread : Ptr) (s' : Store) : Type 0 where
  pub chain : IsQueue s' (xs ++ (fresh, thread) ∷ [])
  pub same : (a : Ptr) → has a xs ≡ false → a ≢ fresh → s'.heap a ≡ s.heap a

-- The heap after the writes that `waitq_add` makes before it links the node.
abbrev ready : Heap → Block → Ptr → Heap
ready h new thread =
    write (write h new.address (some new.junk)) new.address (some (node thread null new.junk.pprev))

ready-ne : (h : Heap) (new : Block) (thread a : Ptr) → a ≢ new.address → ready h new thread a ≡ h a
ready-ne h new thread a ne =
    write-ne (write h new.address (some new.junk)) new.address a _ ne
    ∙ write-ne h new.address a _ ne

add_empty :
    (fuel : ℕ) (new : Block) (thread : Ptr) {h : Heap}
    → new.address ≢ null
    → Returns
        (λ failed s'. (failed ≡ false) × Joined (st null h) [] new.address thread s')
        (waitq_add (suc fuel) new thread (st null h))
unfolding waitq_add
add_empty fuel new thread {h} ne =
    let fresh = new.address in
    let far : (fresh == null) ≡ false = ground arith in
    let e1 = Holds-write h fresh new.junk ne in
    let e2 =
      Holds-write (write h fresh (some new.junk)) fresh (node thread null new.junk.pprev) ne in
    rw (far, read-ok e1 null, set_pprev-ok e2 fresh at_head)
      (returns (
        refl,
        record {
          chain =
              cons (Holds-write (ready h new thread) fresh (node thread null at_head) ne) refl nil;
          same =
              λ a i ne'. write-ne (ready h new thread) fresh a _ ne' ∙ ready-ne h new thread a ne';
        },
      ))

add_last :
    (fuel : ℕ) (new : Block) (thread : Ptr) {h : Heap} {p : Ptr} {c : Ptr × Ptr} {xs : Cells}
    → Chain h at_head p (c ∷ xs)
    → h new.address ≡ none
    → new.address ≢ null
    → length xs < fuel
    → Returns
        (λ failed s'. (failed ≡ false) × Joined (st p h) (c ∷ xs) new.address thread s')
        (waitq_add fuel new thread (st p h))
unfolding waitq_add
add_last fuel new thread {h} {p} {c} {xs} ch unused ne f =
    let fresh = new.address in
    let l = last_cell c xs in
    let out = not_has_of_none fresh ch unused in
    let far : (fresh == null) ≡ false = ground arith in
    let junk = some new.junk in
    let e1 = Holds-write h fresh new.junk ne in
    let n = node thread null new.junk.pprev in
    let h2 = ready h new thread in
    let z = last_node fresh thread ch out in
    let apart : l ≢ fresh = λ e. cc (sym out ∙ ap (λ a. has a (c ∷ xs)) (sym e) ∙ z.inside) in
    let held : Holds h2 l z.contents = record {
      ne_null = z.held.ne_null;
      content = write-ne _ fresh l _ apart ∙ write-ne h fresh l _ apart ∙ z.held.content;
    } in
    let e2 : Holds (write h2 l (some (record z.contents { next = fresh }))) fresh n = record {
      ne_null = ne;
      content = write-ne h2 l fresh _ (λ e. apart (sym e)) ∙ (Holds-write _ fresh n ne).content;
    } in
    let linked = record z.contents { next = fresh } in
    let h3 = write h2 l (some linked) in
    let g = write h3 fresh (some (node thread null (at_next l))) in
    let others : (a : Ptr) → a ≢ fresh → a ≢ l → g a ≡ h a =
      λ a nf nl. write-ne h3 fresh a _ nf ∙ write-ne h2 l a _ nl ∙ ready-ne h new thread a nf in
    rw
      (
        far,
        last-ok fuel p (frame-write fresh junk ch out) f,
        read-ok e1 p,
        not_null held,
        set_next-ok held p fresh,
        set_pprev-ok e2 p (at_next l),
      )
      (returns (
        refl,
        record {
          chain =
              z.linked g
                (write-ne h3 fresh l _ apart ∙ (Holds-write h2 l linked held.ne_null).content)
                (Holds-write h3 fresh (node thread null (at_next l)) ne)
                (λ a i ne'.
                  others a (λ e. cc (sym out ∙ ap (λ a. has a (c ∷ xs)) (sym e) ∙ i)) ne');
          same = λ a i ne'. others a ne' (λ e. cc (sym i ∙ ap (λ a. has a (c ∷ xs)) e ∙ z.inside));
        },
      ))

add_any :
    (fuel : ℕ) (new : Block) (thread : Ptr) {h : Heap} {p : Ptr} (xs : Cells)
    → Chain h at_head p xs
    → h new.address ≡ none
    → new.address ≢ null
    → length xs < fuel
    → Returns
        (λ failed s'. (failed ≡ false) × Joined (st p h) xs new.address thread s')
        (waitq_add fuel new thread (st p h))
add_any zero new thread xs ch unused ne f = absurd (omega arith)
add_any (suc fuel) new thread [] ch unused ne f = rw (eq_null ch) (add_empty fuel new thread ne)
add_any (suc fuel) new thread (c ∷ xs) ch unused ne f =
    add_last (suc fuel) new thread ch unused ne (omega arith)

-- Given an unused block of memory, a well-formed queue and fuel for its nodes, waitq_add succeeds,
-- puts the thread behind all that wait, and writes to no node but the queue's own and the new one.
pub waitq_add-append :
    {s : Store} {xs : Cells} (fuel : ℕ) (new : Block) (thread : Ptr)
    → IsQueue s xs
    → s.heap new.address ≡ none
    → new.address ≢ null
    → length xs < fuel
    → Returns
        (λ failed s'. (failed ≡ false) × Joined s xs new.address thread s')
        (waitq_add fuel new thread s)
waitq_add-append {xs} fuel new thread is unused ne f = add_any fuel new thread xs is unused ne f

-- When `kmalloc` has no memory, `waitq_add` fails and changes nothing.
pub waitq_add-null :
    (s : Store) (fuel : ℕ) (new : Block) (thread : Ptr)
    → new.address ≡ null
    → waitq_add fuel new thread s ≡ ok true s
unfolding waitq_add
waitq_add-null s fuel new thread e = rw e
