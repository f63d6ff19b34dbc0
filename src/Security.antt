-- ===== src/Security.antt =====
-- kernel/src/security.c: the validation of an access against an object's passwords and against the
-- C-lists of a protection domain.
pub mod Std
pub mod Validate
pub mod Obj
pub mod Passwd
pub mod Pdx
use mungi.Common.{
  ℕ, zero, suc, ◌+◌, Bool, true, false, not, ◌&&◌, Option, none, some, ◌==◌, leb, ltb,
  if◌then◌else◌,
}
use mungi.Common.Bits.{meets, within, m_not, m_pdx, m_owner}
use mungi.Common.Int.{ℤ, inc, span}
use mungi.Common.Checked.{Checked, done, panic}
use mungi.Object.{Object, Cap}

pub data Verdict : Type 0 where
  allowed denied unknown : Verdict

-- The two tests on a slot whose password matches.
abbrev pub denies : ℕ → ℕ → Bool
denies access rights = meets access rights && meets rights m_not

-- The loop of `do_validate_passwd_std`, with `rounds` rounds left from index `i`: the verdict, and
-- `*access` afterwards.
unfoldable pub std_loop : Object → ℕ → ℕ → ℕ → ℕ → Verdict × ℕ
std_loop o p access zero i = (unknown, access)
std_loop o p access (suc rounds) i =
    let rest = std_loop o p access rounds (suc i) in
    if not (o.passwd i == p)
    then rest
    else if denies access (o.rights i)
    then (denied, access)
    else if within access (o.rights i)
    then (allowed, o.rights i)
    else rest

unfoldable pub do_validate_passwd_std : Object → ℕ → ℕ → Verdict × ℕ
unfolding std_loop
do_validate_passwd_std o p access = std_loop o p access o.n_caps 0

-- `object_find` is the search of the object table.
unfoldable pub validate_cap : (ℕ → Option Object) → Cap → ℕ → Bool
validate_cap object_find cap access =
    if meets access m_pdx then false else elim (object_find cap.address) [
      | none ↦ false
      | some o ↦ elim ((do_validate_passwd_std o cap.passwd access).0) [
        | allowed ↦ true
        | denied ↦ false
        | unknown ↦ false
      ]
    ]

-- The entry points from index `j` on, `rounds` of them: whether one is `proc`.
pub entry_loop : Object → ℕ → ℕ → ℤ → Bool
entry_loop o proc zero j = false
entry_loop o proc (suc rounds) j =
    if o.pdx.entry j == proc then true else entry_loop o proc rounds (inc j)

-- The loop of `do_validate_passwd_pdx`: the PDX slot that matches.
pub pdx_loop : Object → ℕ → ℕ → ℕ → ℕ → Option ℕ
unfolding entry_loop span
pdx_loop o p proc zero i = none
pdx_loop o p proc (suc rounds) i =
    let rest = pdx_loop o p proc rounds (suc i) in
    if not (o.pdx.passwd i == p)
    then rest
    else if entry_loop o proc (span (o.pdx.n_entry i) (o.pdx.x_entry i)) (o.pdx.n_entry i)
    then some i
    else rest

-- The verdict with `*access` and `*pdx_slot` afterwards.
pub record Answer : Type 0 where
  pub verdict : Verdict
  pub access : ℕ
  pub pdx_slot : ℤ

pub do_validate_passwd_pdx : Object → ℕ → ℕ → ℕ → ℤ → Answer
unfolding pdx_loop
do_validate_passwd_pdx o p access proc slot = elim (pdx_loop o p proc o.n_pdx 0) [
  | none ↦ record { verdict = unknown; access = access; pdx_slot = slot }
  | some i ↦ record { verdict = allowed; access = access; pdx_slot = ℤ.pos i }
]

unfoldable pub do_validate_passwd : Object → ℕ → ℕ → ℕ → ℤ → Checked Answer
do_validate_passwd o p access proc slot =
    if meets access m_pdx && meets access m_owner
    then panic
    else if meets access m_pdx
    then done (do_validate_passwd_pdx o p access proc slot)
    else let (verdict, access') = do_validate_passwd_std o p access in
      done (record { verdict = verdict; access = access'; pdx_slot = slot })
