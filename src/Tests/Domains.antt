-- ===== src/Tests/Domains.antt =====
-- An object with passwords, a domain whose C-list holds one of them, and its slots.
use mungi.Common.{
  ℕ, ◌+◌, ◌<◌, ◌≤◌, ◌≡◌, refl, true, ◌==◌, if◌then◌else◌, Option, some, [], ◌∷◌, arith,
}
use mungi.Common.Int.{pos, negsuc}
use mungi.Object.{Object, Public, Pdx, find_place, object_passwd}
use mungi.Security.{allowed, do_validate_passwd_std, std_loop, do_validate_passwd}
use mungi.Security.Std.{Decided, do_validate_passwd_std-allowed}
use mungi.Security.Passwd.{Once, object_passwd-validates}
use mungi.Security.Validate.{Clist, Domain, Validated, do_validate_obj}
use mungi.Security.Obj.{Rests, do_validate_obj-Rests}
use mungi.Vcache.{vcache_check, vcache_add, check_entry, check_slots}
use mungi.Apd.{Apddesc, null_cap, st_lock, apd_slot_insert, apd_slot_delete, apd_slot_lock}
use mungi.Apd.Slots.{InTable, CanInsert, apd_slot_lock-protects}
use mungi.Common.Checked.{done}
use mungi.Common.{◌*◌, none}
use mungi.Object.Entries.{object_pdx}
use mungi.Security.{do_validate_passwd_pdx}
use mungi.Security.Pdx.{AllInside, registered, object_pdx-validates}
use mungi.Tests.Caches.{cache, slot}

abbrev no_info : Public
no_info = record {
  extent = 0;
  creation = 0;
  modification = 0;
  access = 0;
  accounting = 0;
  userinfo = 0;
  acctinfo = 0;
  length = 0;
}

abbrev no_pdx : Pdx
no_pdx = record {
  clist = λ _. null_cap;
  passwd = λ _. 0;
  n_entry = λ _. pos 0;
  x_entry = λ _. pos 0;
  entry = λ _. 0;
}

-- The password 77 reads and writes, and 78 reads.
abbrev object : Object
object = record {
  base = 131072;
  end = 135168;
  info = no_info;
  n_caps = 2;
  passwd = λ i. if i == 0 then 77 else if i == 1 then 78 else 0;
  rights = λ i. if i == 0 then 6 else if i == 1 then 4 else 0;
  n_pdx = 0;
  pdx = no_pdx;
}

do_validate_passwd_std-allowed_example : Decided object 78 4 0 2 4
unfolding do_validate_passwd_std std_loop
do_validate_passwd_std-allowed_example = do_validate_passwd_std-allowed object 78 4 4 refl

Once-79 : Once object 79
Once-79 = record {
  few = omega arith;
  counted = λ i h e. absurd (ground arith);
  unique = λ i j hi hj e f. absurd (ground arith);
}

abbrev with_79 : Object
with_79 = (object_passwd object 79 2).0

object_passwd-validates_example : do_validate_passwd_std with_79 79 2 ≡ (allowed, 2)
unfolding object_passwd find_place
object_passwd-validates_example =
    object_passwd-validates object with_79 79 2 2 Once-79 refl refl refl

-- A slot that was never counted holds the password already.
abbrev stale : Object
stale = record object { passwd = λ i. if i == 2 then 79 else i + 5; rights = λ i. 1 }

-- A C-list at 262144 that presents the password 78, in slot 1 of a domain.
abbrev clist_at : ℕ → Clist
clist_at a = record {
  type = b'c';
  rel_ver = 1;
  caps = record { address = 131072; passwd = 78 } ∷ [];
}

abbrev object_find : ℕ → Option ℕ
object_find a = some 9

abbrev objects : ℕ → Object
objects r = object

abbrev domain : Domain
domain = record {
  n_apd = 2;
  clist = null_cap ∷ record { address = 262144; passwd = 1 } ∷ [];
  vcache = cache;
}

abbrev validated : Validated
validated = record {
  vcache = record {
    last = 0;
    slots =
        record slot {
          base = 131072;
          limit = 135168;
          timestamp = 1031;
          rights = 4;
          obj = 9;
          cap = record { clist = 262144; index = 0 };
        }
        ∷ slot
        ∷ [];
  };
  obj = some 9;
  rcap = some (record { clist = 262144; index = 0 });
}

do_validate_obj-Rests_example : Rests object_find objects clist_at 1030 1031 1031 131080 domain 4 9
unfolding do_validate_obj vcache_check check_entry check_slots do_validate_passwd
    do_validate_passwd_std vcache_add
do_validate_obj-Rests_example =
    do_validate_obj-Rests object_find objects clist_at 1030 1031 1031 domain 131080 4 9 validated
      refl refl refl

-- Three C-lists, the first of them locked.
abbrev slots : Apddesc
slots = record { clist = λ i. record { address = i + 100; passwd = i }; n_locked = 1; n_apd = 3 }

slots-InTable : InTable slots
slots-InTable = record { used = omega arith; locked = omega arith }

can_insert : (p : ℕ) → p < 16 → 1 ≤ p → CanInsert slots 262144 (clist_at 0) p
can_insert p h l = record { proper = refl; inside = h; room = omega arith; unlocked = l }

apd_slot_lock-protects_example :
    let d' = (apd_slot_lock slots (pos 2)).0 in
    ((apd_slot_delete d' (pos 1)).0 ≡ d')
    × ((apd_slot_delete d' (pos 1)).1 ≡ st_lock)
    × ((apd_slot_insert d' 262144 (clist_at 0) 5 (pos 1)).0 ≡ d')
apd_slot_lock-protects_example =
    apd_slot_lock-protects slots 2 1 262144 5 (clist_at 0) (omega arith) (omega arith)

abbrev entry_points : ℕ → ℕ
entry_points j = 131072 + 64 * j

entry_points_inside : AllInside object entry_points 3
entry_points_inside j h = (omega arith, omega arith)

object_pdx-validates_example :
    (object_pdx object 80 null_cap 3 entry_points none
      ≡ done (registered object 80 3 0 null_cap entry_points, none, true))
    × (do_validate_passwd_pdx
          (registered object 80 3 0 null_cap entry_points)
          80
          16
          131136
          (negsuc 0)
        ≡ record { verdict = allowed; access = 16; pdx_slot = pos 0 })
object_pdx-validates_example =
    object_pdx-validates object 80 3 0 null_cap entry_points none 1 16 (negsuc 0) (omega arith) refl
      (omega arith) entry_points_inside (λ j h. absurd (omega arith)) (omega arith)
