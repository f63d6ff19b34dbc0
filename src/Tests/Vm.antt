-- ===== src/Tests/Vm.antt =====
-- Page tables of eight entries and a collision table of four.
use mungi.Common.{◌+◌, ◌≡◌, refl, arith}
use mungi.Common.Checked.{done}
use mungi.Ptable.{Tables, Validity, invalid, free_entry, add_pte, find_pte, in_ptable, not_found}
use mungi.Ptable.Lookup.{find_pte-add_pte}

abbrev tables : Validity → Tables
tables v = record {
  max_ptable = 8;
  max_ctable = 4;
  ptable = λ i. record { validity = v; pagenum = i + 16; framenum = 0; chain = 4 };
  ctable = λ i. free_entry 4;
  free_head = 3;
  dirty = λ i. 0;
}

find_pte-add_pte_example :
    (t' : Tables) × (add_pte 5 (tables invalid) 10 7 1 ≡ done t')
    × (find_pte 5 t' 10 ≡ in_ptable 2)
    × (find_pte 5 t' 18 ≡ not_found)
find_pte-add_pte_example =
    find_pte-add_pte 5 (tables invalid) 10 7 1 18 refl (omega arith) (omega arith) (omega arith)
      refl refl (λ e. absurd (omega (arith, e)))
