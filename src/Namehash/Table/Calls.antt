-- ===== src/Namehash/Table/Calls.antt =====
-- Sequences of calls of lib/naming/namehash.c, from the table that `nh_init` makes.
use mungi.Common.{ℕ, ◌≡◌, refl, Bool, true, false, none, some, List, [], ◌∷◌, arith}
use mungi.Common.Checked.{Checked, done, panic, ◌>>=◌}
use mungi.Namehash.Table.{Namehash, chain_of, find_in, nh_init}
use mungi.Namehash.Table.Chain.{Distinct}
use mungi.Namehash.Table.Refines.{Map, view, Valid, Call, Answer, run, run_spec, Agree, run-Agree}

abbrev then_answers :
    {A : Type 0} → (A → Checked (List Answer)) → Answer × A → Checked (List Answer)
then_answers later (r, x) = later x >>= λ rs. done (r ∷ rs)

-- What the calls answer one after the other, on the table and on the map.
unfoldable pub answers : List Call → Namehash → Checked (List Answer)
answers [] nhash = done []
answers (c ∷ cs) nhash = run c nhash >>= then_answers (answers cs)

unfoldable pub answers_spec : List Call → Map → Checked (List Answer)
answers_spec [] f = done []
answers_spec (c ∷ cs) f = run_spec c f >>= then_answers (answers_spec cs)

then_answers-Agree :
    (cs : List Call) (x : Checked (Answer × Namehash)) (y : Checked (Answer × Map))
    → Agree x y
    → ((nhash : Namehash) → Valid nhash → answers cs nhash ≡ answers_spec cs (view nhash))
    → (x >>= then_answers (answers cs)) ≡ (y >>= then_answers (answers_spec cs))
then_answers-Agree cs (done (r, nhash)) (done (s, f)) (e, same_map, v) later =
    rw (e, ← same_map, later nhash v)
then_answers-Agree cs panic panic h later = refl
then_answers-Agree cs (done x) panic h later = elim h [ ]
then_answers-Agree cs panic (done y) h later = elim h [ ]

answers-view :
    (calls : List Call) (nhash : Namehash)
    → Valid nhash
    → answers calls nhash ≡ answers_spec calls (view nhash)
unfolding answers answers_spec
answers-view [] nhash v = refl
answers-view (c ∷ cs) nhash v =
    then_answers-Agree cs (run c nhash) (run_spec c (view nhash)) (run-Agree c nhash v)
      (answers-view cs)

-- In the table that nh_init makes, whatever its size, any sequence of nh_insert, nh_delete,
-- nh_find and nh_modify gives, call for call, the codes and the values that it gives in one map
-- from absolute names to values that is empty at first, failed allocations included.
pub nh_init-answers :
    (object structure table : Bool) (entries : ℕ) (nhash : Namehash) (calls : List Call)
    → nh_init object structure table entries ≡ done (some nhash)
    → answers calls nhash ≡ answers_spec calls (λ a. none)
unfolding nh_init view chain_of find_in Distinct
nh_init-answers true true true entries nhash calls h =
    let empty : record { size = entries; table = λ i. [] } ≡ nhash = ground (arith, h) in
    rw (← empty) (answers-view calls (record { size = entries; table = λ i. [] }) (λ i. tt))
nh_init-answers true true false entries nhash calls h = ground (arith, h)
nh_init-answers true false table entries nhash calls h = ground (arith, h)
nh_init-answers false structure table entries nhash calls h = ground (arith, h)

Agree-Valid :
    (x : Checked (Answer × Namehash)) (y : Checked (Answer × Map)) (r : Answer) (nhash : Namehash)
    → Agree x y
    → x ≡ done (r, nhash)
    → Valid nhash
Agree-Valid (done (s, t)) (done (u, f)) r nhash (e, same_map, v) h =
    let k : t ≡ nhash = ground (arith, h) in rw (← k) v
Agree-Valid (done x) panic r nhash a h = elim a [ ]
Agree-Valid panic panic r nhash a h = ground (arith, h)
Agree-Valid panic (done y) r nhash a h = elim a [ ]

-- No chain of the table holds a name twice: each call of nh_insert, nh_delete, nh_find or
-- nh_modify keeps that.
run-Valid :
    (c : Call) (nhash nhash' : Namehash) (r : Answer)
    → Valid nhash
    → run c nhash ≡ done (r, nhash')
    → Valid nhash'
run-Valid c nhash nhash' r v h =
    Agree-Valid (run c nhash) (run_spec c (view nhash)) r nhash' (run-Agree c nhash v) h
