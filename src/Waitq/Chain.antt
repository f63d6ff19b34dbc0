-- ===== src/Waitq/Chain.antt =====
-- What a queue of kernel/src/waitq.c stands for: the nodes in order, each pointing back at the
-- pointer that leads to it.
use mungi.Common.{
  ◌≡◌, refl, ◌≢◌, Bool, true, false, ◌||◌, Option, none, some, List, [], ◌∷◌, arith, ◌==◌,
}
use mungi.Waitq.{
  Ptr, null, Back, at_head, at_next, Node, Heap, Store, st, write, Run, ok, fault, read, set_next,
  set_pprev, kfree,
}

-- The nodes of a queue: address and waiting thread.
abbrev pub Cells : Type 0
Cells = List (Ptr × Ptr)

abbrev pub has : Ptr → Cells → Bool
has a [] = false
has a ((p, _) ∷ xs) = (a == p) || has a xs

abbrev pub node : Ptr → Ptr → Back → Node
node t q b = record { thread = t; next = q; pprev = b }

pub record Holds (h : Heap) (p : Ptr) (n : Node) : Type 0 where
  pub ne_null : p ≢ null
  pub content : h p ≡ some n

-- From `p` the `next` pointers lead through the distinct nodes `xs` to `NULL`. The first node
-- points back at `b`, every other at the `next` field before it.
pub data Chain (h : Heap) : Back → Ptr → Cells → Type 0 where
  nil : {b : Back} → Chain h b null []
  cons :
      {b : Back} {p q : Ptr} {t : Ptr} {xs : Cells}
      → Holds h p (node t q b)
      → has p xs ≡ false
      → Chain h (at_next p) q xs
      → Chain h b p ((p, t) ∷ xs)

-- A queue as the code means it to be: its first node points back at the head variable.
abbrev pub IsQueue : Store → Cells → Type 0
IsQueue s xs = Chain s.heap at_head s.head xs

-- The outcome of a run that neither faults nor runs out of fuel.
pub data Returns {A : Type 0} (P : A → Store → Type 0) : Run A → Type 0 where
  returns : {a : A} {s : Store} → P a s → Returns P (ok a s)

pub mono :
    {A : Type 0} {P Q : A → Store → Type 0} {r : Run A}
    → Returns P r
    → ((a : A) (s : Store) → P a s → Q a s)
    → Returns Q r
mono (returns p) weaken = returns (weaken _ _ p)

module _ {h : Heap} {p : Ptr} {n : Node} (e : Holds h p n) where
  pub not_null : (p == null) ≡ false
  not_null = let ne = e.ne_null in ground arith

  pub read-ok : (head : Ptr) → read p (st head h) ≡ ok n (st head h)
  unfolding read
  read-ok head = rw (not_null, e.content)

  pub set_next-ok :
      (head q : Ptr)
      → set_next p q (st head h) ≡ ok tt (st head (write h p (some (record n { next = q }))))
  unfolding set_next
  set_next-ok head q = rw (read-ok head)

  pub set_pprev-ok :
      (head : Ptr) (b : Back)
      → set_pprev p b (st head h) ≡ ok tt (st head (write h p (some (record n { pprev = b }))))
  unfolding set_pprev
  set_pprev-ok head b = rw (read-ok head)

  pub kfree-ok : (head : Ptr) → kfree p (st head h) ≡ ok tt (st head (write h p none))
  unfolding kfree
  kfree-ok head = rw (read-ok head)

pub read-none : (head : Ptr) (h : Heap) (p : Ptr) → h p ≡ none → read p (st head h) ≡ fault
unfolding read
read-none head h p e = ground arith

pub Holds-write : (h : Heap) (p : Ptr) (n : Node) → p ≢ null → Holds (write h p (some n)) p n
unfolding write
Holds-write h p n e = record { ne_null = e; content = ground arith }

pub write-ne : (h : Heap) (p a : Ptr) (c : Option Node) → a ≢ p → write h p c a ≡ h a
unfolding write
write-ne h p a c ne = ground arith

module _ {h : Heap} where
  -- A chain survives any change that spares its own addresses.
  frame :
      {b : Back} {g : Heap} {p : Ptr} {xs : Cells}
      → Chain h b p xs
      → ((a : Ptr) → has a xs ≡ true → g a ≡ h a)
      → Chain g b p xs
  frame nil same = nil
  frame (cons {p} e out c) same =
      cons (ground (arith, same p)) out (frame c λ a i. same a (ground arith))

  pub frame-write :
      {b : Back} {p : Ptr} {xs : Cells} (a : Ptr) (n : Option Node)
      → Chain h b p xs
      → has a xs ≡ false
      → Chain (write h a n) b p xs
  unfolding write
  frame-write a n c out = frame c (ground arith)

  pub not_has_of_none :
      {b : Back} {p : Ptr} {xs : Cells} (a : Ptr) → Chain h b p xs → h a ≡ none → has a xs ≡ false
  not_has_of_none a nil unused = refl
  not_has_of_none a (cons e out c) unused = ground (arith, not_has_of_none a c unused)

  pub eq_null : {b : Back} {p : Ptr} → Chain h b p [] → p ≡ null
  eq_null nil = refl
