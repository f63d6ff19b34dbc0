-- ===== src/Semaphore/Queue.antt =====
-- What one semaphore of kernel/src/semaphore.c keeps: its value counts the threads that wait on it.
use mungi.Common.{
  ℕ, zero, suc, ◌≡◌, refl, ◌∙◌, true, false, some, List, [], ◌∷◌, arith, set, length, Option-cases,
  inl, inr,
}
use mungi.Common.Int.{ℤ, pos, negsuc, neg_part, inc, dec, nonpos}
use mungi.Waitq.{Ptr, at_head, Heap, Run, Store}
use mungi.Waitq.Chain.{Cells, Chain, Returns, returns}
use mungi.Semaphore.{
  Entry, Sem, State, Result, returned, crashed, Ends, ends, on_queue, locate, store_entry,
}

-- The threads `xs` wait on the semaphore, and a negative value is their number.
pub record Tracks (h : Heap) (e : Entry) (xs : Cells) : Type 0 where
  pub chain : Chain h at_head e.waitq xs
  pub debt : neg_part e.value ≡ length xs

-- The state holds the semaphore `e` under the address `a`.
pub record Holds (s : State) (a : Ptr) (sem : Sem) (i : ℕ) (e : Entry) : Type 0 where
  pub present : s.semp ≡ some sem
  pub found : locate a sem.semaphores ≡ some (i, e)

pub neg_part-dec-nonpos : (v : ℤ) → nonpos v ≡ true → neg_part (dec v) ≡ suc (neg_part v)
neg_part-dec-nonpos (pos zero) h = refl
neg_part-dec-nonpos (pos (suc n)) h = cc
neg_part-dec-nonpos (negsuc n) h = refl

pub neg_part-dec_pos : (v : ℤ) → nonpos v ≡ false → neg_part (dec v) ≡ neg_part v
neg_part-dec_pos (pos zero) h = cc
neg_part-dec_pos (pos (suc n)) h = refl
neg_part-dec_pos (negsuc n) h = cc

pub inc-dec : (v : ℤ) → inc (dec v) ≡ v
inc-dec (pos zero) = refl
inc-dec (pos (suc n)) = refl
inc-dec (negsuc n) = refl

pub dec-inc : (v : ℤ) → dec (inc v) ≡ v
dec-inc (pos n) = refl
dec-inc (negsuc zero) = refl
dec-inc (negsuc (suc n)) = refl

pub neg_part-inc : (v : ℤ) (n : ℕ) → neg_part v ≡ suc n → neg_part (inc v) ≡ n
neg_part-inc (pos m) n h = omega arith
neg_part-inc (negsuc zero) n h = omega arith
neg_part-inc (negsuc (suc m)) n h = omega arith

pub neg_part-inc_zero : (v : ℤ) → neg_part v ≡ 0 → neg_part (inc v) ≡ 0
neg_part-inc_zero (pos m) h = refl
neg_part-inc_zero (negsuc m) h = absurd (omega arith)

-- An operation on a queue ends when the queue's own operation does.
pub Ends-on_queue :
    {A B : Type 0} {P : A → Store → Type 0} {Q : B → State → Type 0} {r : Run A} (s : State)
    (k : A → Ptr → State → Result B)
    → Returns P r
    → ((a : A) (q : Store) → P a q → Ends Q (k a q.head (record s { heap = q.heap })))
    → Ends Q (on_queue s r k)
Ends-on_queue s k (returns p) next = next _ _ p

pub Ends-eq :
    {A : Type 0} {a : A} {s : State} {r : Result A}
    → Ends (λ b t. (b ≡ a) × (t ≡ s)) r
    → r ≡ returned a s
Ends-eq (ends (p, q)) = rw (p, q)

pub on_queue_crashed :
    {A B : Type 0} {P : A → Store → Type 0} {r : Run A} (s : State) (k : A → Ptr → State → Result B)
    → Returns P r
    → ((a : A) (q : Store) → P a q → k a q.head (record s { heap = q.heap }) ≡ crashed)
    → on_queue s r k ≡ crashed
on_queue_crashed s k (returns p) next = next _ _ p

pub Ends-mono :
    {A : Type 0} {P Q : A → State → Type 0} {r : Result A}
    → Ends P r
    → ((a : A) (s : State) → P a s → Q a s)
    → Ends Q r
Ends-mono (ends p) weaken = ends (weaken _ _ p)

-- The entry that `locate` returns is the first with the address, and stands at the index.
pub locate_address :
    (a : Ptr) (es : List Entry) (i : ℕ) (e : Entry) → locate a es ≡ some (i, e) → e.address ≡ a
unfolding locate
locate_address a [] i e h = cc
locate_address a (f ∷ es) i e h = elim (Option-cases (locate a es)) [
  | inl n ↦ ground (arith, n)
  | inr ((j, g), n) ↦ ground (arith, n, locate_address a es j g n)
]

-- A changed entry that keeps its address is found where the old one was.
pub locate-set :
    (a : Ptr) (es : List Entry) (i : ℕ) (e e' : Entry)
    → locate a es ≡ some (i, e)
    → e'.address ≡ a
    → locate a (set es i e') ≡ some (i, e')
unfolding locate
locate-set a [] i e e' h same = cc
locate-set a (f ∷ es) zero e e' h same = ground arith
locate-set a (f ∷ es) (suc i) e e' h same = ground (arith, locate-set a es i e e')

-- After an operation on a semaphore: it stands under the same address and index, with the threads
-- `xs` waiting.
pub record Becomes (s : State) (a : Ptr) (sem : Sem) (i : ℕ) (v : ℤ) (xs : Cells) : Type 0 where
  pub entry : Entry
  pub value : entry.value ≡ v
  pub held : Holds s a (record sem { semaphores = set sem.semaphores i entry }) i entry
  pub tracks : Tracks s.heap entry xs

pub stored :
    {s : State} {a : Ptr} {sem : Sem} {i : ℕ} {e : Entry} (e' : Entry) (t : State) (xs : Cells)
    → Holds s a sem i e
    → e'.address ≡ e.address
    → Tracks t.heap e' xs
    → Becomes (store_entry sem i e' t) a sem i e'.value xs
stored {a} {sem} {i} {e} e' t xs held same tracks = record {
  entry = e';
  value = refl;
  held = record {
    present = refl;
    found =
        locate-set a sem.semaphores i e e' held.found
          (same ∙ locate_address a sem.semaphores i e held.found);
  };
  tracks = tracks;
}
