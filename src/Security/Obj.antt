-- ===== src/Security/Obj.antt =====
-- `do_validate_obj` of kernel/src/security.c: what a validated access rests on.
use mungi.Common.{
  ℕ, zero, suc, ◌<◌, ◌≡◌, refl, ap, ◌∙◌, true, false, Option, none, some, List, [], ◌∷◌, arith, ◌⊎◌,
  inl, inr, Bool-cases, Elem, here, there, get_elem?,
}
use mathlib.Core.Path.{subst}
use mungi.Common.Int.{negsuc}
use mungi.Common.Bits.{meets, m_pdx}
use mungi.Common.Checked.{Checked, done, >>=-eq-done}
use mungi.Vcache.{Vcache, CapRef, Hit, Extent, vcache_add, Slot, in_range, vcache_check}
use mungi.Vcache.Check.{Granted, vcache_check-hit}
use mungi.Object.{Object, Cap}
use mungi.Security.{allowed, unknown, Answer, do_validate_passwd, do_validate_passwd_std}
use mungi.Security.Std.{Decided, do_validate_passwd_std-allowed}
use mungi.Security.Validate.{
  Clist, is_not_clist, Scan, no_match, grants, refuses, ends_scan, or_scan, scan_caps, scan_slots,
  Domain, Validated, finish, search_domain, from_cache, do_validate_obj,
}

-- A capability of the list refers into the object and its password allows the access.
pub record Presents (o : Object) (access : ℕ) (cs : List Cap) : Type 0 where
  pub cap : Cap
  pub listed : Elem cap cs
  pub refers : in_range cap.address o.base o.end ≡ true
  pub rights : ℕ
  pub decided : Decided o cap.passwd access 0 o.n_caps rights

ends_scan-grants :
    (a' a : Answer) (ref' ref : CapRef) (adr' adr : ℕ) (rest : Checked Scan)
    → ends_scan a' ref' adr' rest ≡ done (grants a ref adr)
    → ((a'.verdict ≡ allowed) × (a' ≡ a))
      ⊎ ((a'.verdict ≡ unknown) × (rest ≡ done (grants a ref adr)))
ends_scan-grants a' a ref' ref adr' adr rest h = ground arith

or_scan-grants :
    (r : Scan) (rest : Checked Scan) (a : Answer) (ref : CapRef) (adr : ℕ)
    → or_scan r rest ≡ done (grants a ref adr)
    → (r ≡ grants a ref adr) ⊎ (rest ≡ done (grants a ref adr))
or_scan-grants no_match rest a ref adr h = inr h
or_scan-grants (grants a' ref' adr') rest a ref adr h = inl (ground arith)
or_scan-grants (refuses ref') rest a ref adr h = ground arith

later :
    {o : Object} {access : ℕ} {c : Cap} {cs : List Cap}
    → Presents o access cs
    → Presents o access (c ∷ cs)
later w = record {
  cap = w.cap;
  listed = there w.listed;
  refers = w.refers;
  rights = w.rights;
  decided = w.decided;
}

-- Some C-list in the first `n` slots presents such a capability.
pub record Authorised (o : Object) (access : ℕ) (clist_at : ℕ → Clist) (n : ℕ) (slots : List Cap)
    : Type 0 where
  pub slot : Cap
  pub index : ℕ
  pub in_use : index < n
  pub stands : get_elem? slots index ≡ some slot
  pub proper : is_not_clist slot.address (clist_at slot.address) ≡ false
  pub presents : Presents o access (clist_at slot.address).caps

module _ (o : Object) (addr access : ℕ) (plain : meets access m_pdx ≡ false) where
  plain_answer :
      (p : ℕ) (a : Answer)
      → do_validate_passwd o p access addr (negsuc 0) ≡ done a
      → a.verdict ≡ allowed
      → do_validate_passwd_std o p access ≡ (allowed, a.access)
  unfolding do_validate_passwd
  plain_answer p a h e = ground arith

  scan_caps-Presents :
      (clist j adr : ℕ) (cs : List Cap) (a : Answer) (ref : CapRef)
      → scan_caps o addr access clist j cs ≡ done (grants a ref adr)
      → Presents o access cs
  unfolding scan_caps
  scan_caps-Presents clist j adr [] a ref h = ground arith
  scan_caps-Presents clist j adr (c ∷ cs) a ref h =
      elim (Bool-cases (in_range c.address o.base o.end)) [
        | inr out ↦ later (scan_caps-Presents clist (suc j) adr cs a ref (rw out at h))
        | inl refers ↦
            let (a', e, h') =
              >>=-eq-done (do_validate_passwd o c.passwd access addr (negsuc 0)) _
                (rw refers at h) in
            elim (ends_scan-grants a' a _ ref c.address adr _ h') [
              | inr (v, r) ↦ later (scan_caps-Presents clist (suc j) adr cs a ref r)
              | inl (v, same) ↦ record {
                cap = c;
                listed = here;
                refers = refers;
                rights = a'.access;
                decided =
                    do_validate_passwd_std-allowed o c.passwd access a'.access
                      (plain_answer c.passwd a' e v);
              }
            ]
      ]

  scan_slots-Authorised :
      (clist_at : ℕ → Clist) (n adr : ℕ) (slots : List Cap) (a : Answer) (ref : CapRef)
      → scan_slots clist_at o addr access n slots ≡ done (grants a ref adr)
      → Authorised o access clist_at n slots
  unfolding scan_slots
  scan_slots-Authorised clist_at zero adr slots a ref h = ground arith
  scan_slots-Authorised clist_at (suc n) adr [] a ref h = ground arith
  scan_slots-Authorised clist_at (suc n) adr (s ∷ ss) a ref h =
      elim (Bool-cases (is_not_clist s.address (clist_at s.address))) [
        | inl bad ↦ next (scan_slots-Authorised clist_at n adr ss a ref (rw bad at h))
        | inr good ↦
            let (r, e, h') =
              >>=-eq-done (scan_caps o addr access s.address 0 (clist_at s.address).caps) _
                (rw good at h) in
            elim (or_scan-grants r _ a ref adr h') [
              | inr q ↦ next (scan_slots-Authorised clist_at n adr ss a ref q)
              | inl q ↦ record {
                slot = s;
                index = 0;
                in_use = omega arith;
                stands = refl;
                proper = good;
                presents =
                    scan_caps-Presents s.address 0 adr (clist_at s.address).caps a ref (rw (← q) e);
              }
            ]
      ]
    where
      next : Authorised o access clist_at n ss → Authorised o access clist_at (suc n) (s ∷ ss)
      next w = record {
        slot = w.slot;
        index = suc w.index;
        in_use = omega (arith, w.in_use);
        stands = w.stands;
        proper = w.proper;
        presents = w.presents;
      }

module _ (object_find : ℕ → Option ℕ) (objects : ℕ → Object) (clist_at : ℕ → Clist)
    (now now1 now2 : ℕ) where
  finish-obj :
      (c : Vcache) (r r' : ℕ) (s : Scan) (v : Validated)
      → finish object_find objects clist_at now now1 now2 c r s ≡ done v
      → v.obj ≡ some r'
      → (r ≡ r') × ((a : Answer) × (ref : CapRef) × (adr : ℕ) × (s ≡ grants a ref adr))
  unfolding finish
  finish-obj c r r' no_match v h e = ground arith
  finish-obj c r r' (refuses ref) v h e = ground arith
  finish-obj c r r' (grants a ref adr) v h e =
      let extent : Extent = record { obj = r; base = (objects r).base; limit = (objects r).end } in
      let (c', q, h') =
        >>=-eq-done (vcache_add c extent a.access ref adr a.pdx_slot now1 now2) _ h in
      (ground arith, (a, ref, adr, refl))

  -- Where an access rests: on an entry of the cache that grants it, or on the object that the table
  -- has for the address and a C-list in one of the domain's slots.
  abbrev pub Rests : ℕ → Domain → ℕ → ℕ → Type 0
  Rests addr d access r =
      ((i : ℕ) × (s : Slot) × Granted d.vcache.slots i s addr access now × (s.obj ≡ r))
      ⊎ ((object_find addr ≡ some r) × Authorised (objects r) access clist_at d.n_apd d.clist)

  search_domain-Rests :
      (d : Domain) (c : Vcache) (addr access r : ℕ) (v : Validated) (o : Option ℕ)
      → meets access m_pdx ≡ false
      → object_find addr ≡ o
      → search_domain object_find objects clist_at now now1 now2 d c addr access ≡ done v
      → v.obj ≡ some r
      → (object_find addr ≡ some r) × Authorised (objects r) access clist_at d.n_apd d.clist
  unfolding search_domain
  search_domain-Rests d c addr access r v none plain f h e = ground (arith, f)
  search_domain-Rests d c addr access r v (some r') plain f h e =
      let (s, q, h') =
        >>=-eq-done (scan_slots clist_at (objects r') addr access d.n_apd d.clist) _
          (rw (f, search_domain) at h) in
      let (same, from) = finish-obj c r' r s v h' e in
      let (a, ref, adr, g) = from in
      (
        f ∙ ap some same,
        subst (λ x. Authorised (objects x) access clist_at d.n_apd d.clist) same
            (scan_slots-Authorised (objects r') addr access plain clist_at d.n_apd adr d.clist a ref
              (q ∙ ap done g)),
      )

  from_cache-Rests :
      (d : Domain) (c : Vcache) (addr access r : ℕ) (v : Validated) (hit : Option Hit)
      → meets access m_pdx ≡ false
      → vcache_check d.vcache addr access now ≡ done (c, hit)
      → from_cache object_find objects clist_at now now1 now2 d addr access c hit ≡ done v
      → v.obj ≡ some r
      → Rests addr d access r
  unfolding from_cache
  from_cache-Rests d c addr access r v none plain k h e =
      inr (search_domain-Rests d c addr access r v (object_find addr) plain refl h e)
  from_cache-Rests d c addr access r v (some x) plain k h e =
      let (s, g, q) = vcache_check-hit d.vcache c addr access now x k in
      inl (c.last, s, g, ground (arith, q))

  -- An access without M_PDX is validated to an object only if an entry of the domain's cache
  -- grants it for that object, or the object table has that object for the address and one of the
  -- domain's C-lists presents a capability for the object whose password allows the access.
  pub do_validate_obj-Rests :
      (d : Domain) (addr access r : ℕ) (v : Validated)
      → meets access m_pdx ≡ false
      → do_validate_obj object_find objects clist_at now now1 now2 addr d access ≡ done v
      → v.obj ≡ some r
      → Rests addr d access r
  unfolding do_validate_obj
  do_validate_obj-Rests d addr access r v plain h e =
      let (x, q, h') = >>=-eq-done (vcache_check d.vcache addr access now) _ h in
      from_cache-Rests d x.0 addr access r v x.1 plain q h' e
