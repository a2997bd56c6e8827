-- ===== src/Fs/Vfs/Unregister.antt =====
-- Taking a file system off the list.
use saxon_os.Prelude.{
  ℕ, zero, suc, ◌<◌, ◌≡◌, refl, sym, ap, subst, ◌∙◌, arith, List, [], ◌∷◌, length, ◌==◌, true,
  false, if◌then◌else◌, ok, Bool-cases, inl, inr, ◌⊎◌,
}
use saxon_os.Fs.Vfs.{
  Ptr, FsType, Vfs, at_head, at_next, deref, assign, set_next, success, failure, unregister_from,
  unregister_filesystem,
}
use saxon_os.Fs.Vfs.Chain.{IsChain, has, Distinct, IsChain-set_next}
use saxon_os.Fs.Vfs.Register.{Registered}

-- The list without an address.
abbrev pub without : Ptr → List Ptr → List Ptr
without fs [] = []
without fs (q ∷ qs) = if q == fs then qs else q ∷ without fs qs

-- The end of a search that finds nothing.
unregister_from-none :
    (rounds fs : ℕ) (s : Vfs) (p : Ptr) (qs : List Ptr)
    → IsChain s.types (s.types p).next qs
    → has fs qs ≡ false
    → length qs < rounds
    → unregister_from rounds fs s (at_next p) ≡ ok (failure, s)
unfolding unregister_from deref
unregister_from-none zero fs s p qs c new h = absurd (omega arith)
unregister_from-none (suc rounds) fs s p [] c new h = rw c refl
unregister_from-none (suc rounds) fs s p (q ∷ qs) (e, ne, c) new h =
    let some : (q == 0) ≡ false = ground arith in
    let other : (q == fs) ≡ false = ground arith in
    let rest : has fs qs ≡ false = ground arith in
    rw (e, some, other) (unregister_from-none rounds fs s q qs c rest (omega arith))

-- What a search from the link of `p` on, which finds `fs` behind it, does.
record Unlinked (fs : ℕ) (s : Vfs) (p : Ptr) (qs : List Ptr) (s' : Vfs) : Type 0 where
  same_head : s'.file_systems ≡ s.file_systems
  chain : IsChain s'.types (s'.types p).next (without fs qs)
  frame : (a : Ptr) → has a (p ∷ qs) ≡ false → (s'.types a).next ≡ (s.types a).next
  cleared : (s'.types fs).next ≡ 0

-- The list without its first address, which `p` leads to.
unlinked :
    (fs : ℕ) (s : Vfs) (p : Ptr) (qs : List Ptr)
    → IsChain s.types (s.types fs).next qs
    → Distinct (p ∷ fs ∷ qs)
    → Unlinked fs s p
        (fs ∷ qs)
        (record s { types = set_next (set_next s.types p (s.types fs).next) fs 0 })
unlinked fs s p qs c d =
    let same : (fs == fs) ≡ true = ground arith in
    let same_p : (p == p) ≡ true = ground arith in
    let apart : (p == fs) ≡ false = let h = d.0 in ground arith in
    let out_p : has p qs ≡ false = let h = d.0 in ground arith in
    record {
      same_head = refl;
      chain =
          rw (same, apart, same_p)
            (IsChain-set_next (set_next s.types p (s.types fs).next) fs 0 (s.types fs).next qs
              (d.1.0) (IsChain-set_next s.types p (s.types fs).next (s.types fs).next qs out_p c));
      frame = λ a out.
          let not_fs : (a == fs) ≡ false = ground arith in
          let not_p : (a == p) ≡ false = ground arith in rw (not_fs, not_p) refl;
      cleared = rw same refl;
    }

unregister_from-Unlinked :
    (rounds fs : ℕ) (s : Vfs) (p : Ptr) (qs : List Ptr)
    → IsChain s.types (s.types p).next qs
    → Distinct (p ∷ qs)
    → has fs qs ≡ true
    → length qs < rounds
    → (s' : Vfs) × (unregister_from rounds fs s (at_next p) ≡ ok (success, s'))
      × Unlinked fs s p qs s'
unfolding unregister_from deref assign
unregister_from-Unlinked zero fs s p qs c d old h = absurd (omega arith)
unregister_from-Unlinked (suc rounds) fs s p [] c d old h = absurd (ground arith)
unregister_from-Unlinked (suc rounds) fs s p (q ∷ qs) (e, ne, c) d old h =
    let some : (q == 0) ≡ false = ground arith in
    elim (Bool-cases (q == fs)) [
      | inl here ↦
          let q_fs : q ≡ fs = ground arith in
          let fs_q = sym q_fs in
          let c' = subst (λ x. IsChain s.types (s.types x).next qs) q_fs c in
          let d' = subst (λ x. Distinct (p ∷ x ∷ qs)) q_fs d in
          (
            record s { types = set_next (set_next s.types p (s.types fs).next) fs 0 },
            rw (e, some, here) refl,
            subst
                (λ x.
                  Unlinked fs s p (x ∷ qs)
                    (record s { types = set_next (set_next s.types p (s.types fs).next) fs 0 }))
                fs_q (unlinked fs s p qs c' d'),
          )
      | inr other ↦
          let rest : has fs qs ≡ true = ground arith in
          let (s', run, u) = unregister_from-Unlinked rounds fs s q qs c d.1 rest (omega arith) in
          (
            s',
            rw (e, some, other) run,
            record {
              same_head = u.same_head;
              chain = rw other (u.frame p (d.0) ∙ e, ne, u.chain);
              frame = λ a out. u.frame a (ground arith);
              cleared = u.cleared;
            },
          )
    ]

-- One round that passes an address.
pass :
    (rounds fs : ℕ) (s : Vfs) (q : Ptr)
    → s.file_systems ≡ q
    → (q == 0) ≡ false
    → (q == fs) ≡ false
    → unregister_from (suc rounds) fs s at_head ≡ unregister_from rounds fs s (at_next q)
unfolding unregister_from deref
pass rounds fs s q e some other =
    let here : (s.file_systems == 0) ≡ false = ap (λ p. p == 0) e ∙ some in
    let apart : (s.file_systems == fs) ≡ false = ap (λ p. p == fs) e ∙ other in
    rw (here, apart) (ap (λ p. unregister_from rounds fs s (at_next p)) e)

-- What a call ends in.
abbrev Unregisters : (fs : ℕ) → Vfs → List Ptr → Vfs → Type 0
Unregisters fs s qs s' =
    ((has fs qs ≡ false) × (s' ≡ s))
    ⊎ ((has fs qs ≡ true)
        × IsChain s'.types s'.file_systems (without fs qs)
        × ((s'.types fs).next ≡ 0))

from_head :
    (rounds fs : ℕ) (s : Vfs) (qs : List Ptr)
    → IsChain s.types s.file_systems qs
    → Distinct qs
    → length qs < rounds
    → (s' : Vfs) × (unregister_from rounds fs s at_head
        ≡ ok (if has fs qs then success else failure, s'))
      × Unregisters fs s qs s'
unfolding unregister_from deref assign
from_head zero fs s qs c d h = absurd (omega arith)
from_head (suc rounds) fs s [] c d h = (s, rw c refl, inl (refl, refl))
from_head (suc rounds) fs s (q ∷ qs) (e, ne, c) d h =
    let some : (q == 0) ≡ false = ground arith in
    elim (Bool-cases (q == fs)) [
      | inl here ↦
          let q_fs : q ≡ fs = ground arith in
          let found : (fs == q) ≡ true = ground arith in
          let c' = subst (λ x. IsChain s.types (s.types x).next qs) q_fs c in
          let out = subst (λ x. has x qs ≡ false) q_fs d.0 in
          (
            record { file_systems = (s.types fs).next; types = set_next s.types fs 0 },
            rw (e, some, here, found) refl,
            inr (
              rw found refl,
              rw here (IsChain-set_next s.types fs 0 (s.types fs).next qs out c'),
              cleared fs s.types,
            ),
          )
      | inr other ↦
          let other' : (fs == q) ≡ false = ground arith in
          elim (Bool-cases (has fs qs)) [
            | inl old ↦
                let (s', run, u) =
                  unregister_from-Unlinked rounds fs s q qs c d old (omega arith) in
                (
                  s',
                  rw (other', old) (pass rounds fs s q e some other ∙ run),
                  inr (rw (other', old) refl, rw other (u.same_head ∙ e, ne, u.chain), u.cleared),
                )
            | inr new ↦ (
              s,
              rw (other', new)
                  (pass rounds fs s q e some other
                    ∙ unregister_from-none rounds fs s q qs c new (omega arith)),
              inl (rw (other', new) refl, refl),
            )
          ]
    ]
  where
    cleared : (fs : ℕ) → (types : Ptr → FsType) → (set_next types fs 0 fs).next ≡ 0
    cleared fs types = let same : (fs == fs) ≡ true = ground arith in rw same refl

-- With rounds for the list, a type that is on the list of distinct types is taken off it, the
-- others stay in their order, and its `next` is null afterwards. For a type that is not on the list
-- nothing changes, and the call fails.
pub unregister_filesystem_lem :
    (rounds fs : ℕ) (s : Vfs) (qs : List Ptr)
    → Registered s qs
    → length qs < rounds
    → (s' : Vfs) × (unregister_filesystem rounds fs s
        ≡ ok (if has fs qs then success else failure, s'))
      × (((has fs qs ≡ false) × (s' ≡ s))
          ⊎ ((has fs qs ≡ true)
              × IsChain s'.types s'.file_systems (without fs qs)
              × ((s'.types fs).next ≡ 0)))
unfolding unregister_filesystem
unregister_filesystem_lem rounds fs s qs r h = from_head rounds fs s qs r.chain r.distinct h
