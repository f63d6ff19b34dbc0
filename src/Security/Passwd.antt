-- ===== src/Security/Passwd.antt =====
-- `object_passwd` of kernel/src/objects.c, and what `do_validate_passwd_std` of
-- kernel/src/security.c makes of the password afterwards.
use mungi.Common.{
  ℕ, zero, suc, ◌+◌, ◌≤◌, ◌<◌, ◌≡◌, refl, ◌≢◌, ap, ◌∙◌, true, false, none, ◌==◌, arith, leb,
  if◌then◌else◌,
}
use mathlib.Core.Path.{subst}
use mungi.Common.Arrays.{update}
use mungi.Common.Bits.{within}
use mungi.Object.{
  Object, Place, same, empty, nowhere, find_place, object_passwd, without_pdx, o_max_caps,
}
use mungi.Object.Passwd.{find_place-same, find_place-empty}
use mungi.Security.{denies, allowed, do_validate_passwd_std, std_loop}
use mungi.Security.Std.{do_validate_passwd_std-first}

-- "password only exists once", and only in the slots that the validator looks at.
pub record Once (o : Object) (p : ℕ) : Type 0 where
  pub few : o.n_caps ≤ o_max_caps
  pub counted : (i : ℕ) → i < o_max_caps → o.passwd i ≡ p → i < o.n_caps
  pub unique : (i j : ℕ) → i < o_max_caps → j < o_max_caps → o.passwd i ≡ p → o.passwd j ≡ p → i ≡ j

-- After the operation the slot `k` holds the password with the new rights, and no slot before it
-- has the password.
record Placed (o' : Object) (p r k : ℕ) : Type 0 where
  counted : k < o'.n_caps
  matching : o'.passwd k ≡ p
  held : o'.rights k ≡ without_pdx r
  before : (j : ℕ) → j < k → o'.passwd j ≢ p

place_same :
    (o : Object) (p r k : ℕ)
    → Once o p
    → find_place o p o_max_caps 0 none ≡ same k
    → Placed (record o { rights = update o.rights k (without_pdx r) }) p r k
unfolding update
place_same o p r k w h =
    let (hit, below) = find_place-same o p o_max_caps 0 k o_max_caps none (omega arith) h in
    record {
      counted = w.counted k below hit;
      matching = hit;
      held = ground arith;
      before = λ j lo e. absurd (omega (arith, w.unique j k (omega arith) below e hit));
    }

place_empty :
    (o : Object) (p r k : ℕ)
    → Once o p
    → find_place o p o_max_caps 0 none ≡ empty k
    → Placed
        (record o {
          n_caps = if leb o.n_caps k then k + 1 else o.n_caps;
          passwd = update o.passwd k p;
          rights = update o.rights k (without_pdx r);
        })
        p
        r
        k
unfolding update
place_empty o p r k w h =
    let (below, others) = find_place-empty o p o_max_caps 0 k o_max_caps (omega arith) h in
    record {
      counted = ground arith;
      matching = ground arith;
      held = ground arith;
      before = λ j lo. ground (arith, others j (omega arith) (omega arith) (omega arith));
    }

Placed-allows :
    (o' : Object) (p r access k : ℕ)
    → Placed o' p r k
    → denies access (without_pdx r) ≡ false
    → within access (without_pdx r) ≡ true
    → do_validate_passwd_std o' p access ≡ (allowed, without_pdx r)
Placed-allows o' p r access k w nd en =
    do_validate_passwd_std-first o' p access k w.counted
      (λ j lo hi. let miss : (o'.passwd j == p) ≡ false = ground (arith, w.before j hi) in rw miss)
      (record { matching = w.matching; not_denied = rw w.held nd; enough = rw w.held en })
    ∙ ap (λ x. (allowed, x)) w.held

-- When object_passwd succeeds for a password that the object has at most once, and in no slot
-- behind n_caps, the validator allows with that password every access within the new rights that
-- they do not deny, and hands back the new rights without M_PDX.
pub object_passwd-validates :
    (o o' : Object) (p r access : ℕ)
    → Once o p
    → object_passwd o p r ≡ (o', true)
    → denies access (without_pdx r) ≡ false
    → within access (without_pdx r) ≡ true
    → do_validate_passwd_std o' p access ≡ (allowed, without_pdx r)
unfolding object_passwd
object_passwd-validates o o' p r access w h nd en = go (find_place o p o_max_caps 0 none) refl
  where
    go :
        (x : Place)
        → find_place o p o_max_caps 0 none ≡ x
        → do_validate_passwd_std o' p access ≡ (allowed, without_pdx r)
    go (same k) e =
        let q = rw (e, object_passwd) at h in
        subst (λ x. do_validate_passwd_std x p access ≡ (allowed, without_pdx r)) (ap (λ x. x.0) q)
          (Placed-allows _ p r access k (place_same o p r k w e) nd en)
    go (empty k) e =
        let q = rw (e, object_passwd) at h in
        subst (λ x. do_validate_passwd_std x p access ≡ (allowed, without_pdx r)) (ap (λ x. x.0) q)
          (Placed-allows _ p r access k (place_empty o p r k w e) nd en)
    go nowhere e = let q = rw (e, object_passwd) at h in cc (ap (λ x. x.1) q)

unseen :
    (o : Object) (p access i v rounds j : ℕ)
    → j + rounds ≤ i
    → std_loop (record o { rights = update o.rights i v }) p access rounds j
      ≡ std_loop o p access rounds j
unfolding std_loop update
unseen o p access i v zero j h = refl
unseen o p access i v (suc rounds) j h =
    let miss : (j == i) ≡ false = ground arith in
    rw (miss, unseen o p access i v rounds (suc j) (omega arith))

-- When the search of object_passwd meets the password in a slot behind n_caps, where a fresh
-- object's memory was never written, it reports success and no validation changes.
object_passwd-unseen :
    (o : Object) (p r i q access : ℕ)
    → o.n_caps ≤ i
    → find_place o p o_max_caps 0 none ≡ same i
    → ((object_passwd o p r).1 ≡ true)
      × (do_validate_passwd_std (object_passwd o p r).0 q access
          ≡ do_validate_passwd_std o q access)
unfolding object_passwd do_validate_passwd_std
object_passwd-unseen o p r i q access h e = (
  rw (e, object_passwd),
  rw (e, object_passwd) (unseen o q access i (without_pdx r) o.n_caps 0 (omega arith)),
)
