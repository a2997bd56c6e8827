-- ===== src/Fs/Vfs/Chain.antt =====
-- The list of registered types as a chain of distinct addresses.
use saxon_os.Prelude.{
  ℕ, zero, suc, ◌<◌, ◌≡◌, ◌≢◌, refl, arith, List, [], ◌∷◌, ◌++◌, length, ◌==◌, ◌||◌, Bool, true,
  false, ok, Bool-cases, inl, inr, sym, ◌∙◌,
}
use saxon_os.Fs.Vfs.{Ptr, FsType, Vfs, Link, at_next, deref, set_next, matches, find_from}
use saxon_os.Common.Strings.{Bytes}

-- From `p` the `next` fields lead through the addresses in order to the null pointer.
abbrev pub IsChain : (Ptr → FsType) → Ptr → List Ptr → Type 0
IsChain types p [] = p ≡ 0
IsChain types p (q ∷ qs) = (p ≡ q) × (q ≢ 0) × IsChain types (types q).next qs

abbrev pub has : Ptr → List Ptr → Bool
has a [] = false
has a (q ∷ qs) = (a == q) || has a qs

abbrev pub Distinct : List Ptr → Type 0
Distinct [] = Unit
Distinct (q ∷ qs) = (has q qs ≡ false) × Distinct qs

-- No type on the list matches the name.
abbrev pub any_match : Bytes → ℕ → (Ptr → FsType) → List Ptr → Bool
any_match name len types [] = false
any_match name len types (q ∷ qs) = matches name len (types q) || any_match name len types qs

-- Writing the `next` field of an address outside a chain leaves the chain.
pub IsChain-set_next :
    (types : Ptr → FsType) (a v p : Ptr) (qs : List Ptr)
    → has a qs ≡ false
    → IsChain types p qs
    → IsChain (set_next types a v) p qs
IsChain-set_next types a v p [] out c = c
IsChain-set_next types a v p (q ∷ qs) out (e, ne, c) =
    let apart : (q == a) ≡ false = ground arith in
    let rest : has a qs ≡ false = ground arith in
    (e, ne, rw apart (IsChain-set_next types a v _ qs rest c))

-- The link at the end of a chain that begins at a link.
abbrev pub last_link : Link → List Ptr → Link
last_link link [] = link
last_link link (q ∷ qs) = last_link (at_next q) qs

pub find_from-none :
    (rounds : ℕ) (s : Vfs) (name : Bytes) (len : ℕ) (link : Link) (qs : List Ptr)
    → IsChain s.types (deref s link) qs
    → any_match name len s.types qs ≡ false
    → length qs < rounds
    → (find_from rounds s name len link ≡ ok (last_link link qs))
      × (deref s (last_link link qs) ≡ 0)
unfolding find_from
find_from-none zero s name len link qs c none_matches h = absurd (omega arith)
find_from-none (suc rounds) s name len link [] c none_matches h = (rw c refl, c)
find_from-none (suc rounds) s name len link (q ∷ qs) (e, ne, c) none_matches h =
    let here : (deref s link == 0) ≡ false = ground arith in
    let differs : matches name len (s.types q) ≡ false = ground arith in
    let rest : any_match name len s.types qs ≡ false = ground arith in
    let (found, end) =
      find_from-none rounds s name len (at_next q) qs (unfold deref in c) rest (omega arith) in
    (rw (here, e, differs) found, end)

pub find_from-some :
    (rounds : ℕ) (s : Vfs) (name : Bytes) (len : ℕ) (link : Link) (qs : List Ptr)
    → IsChain s.types (deref s link) qs
    → any_match name len s.types qs ≡ true
    → length qs < rounds
    → (l : Link) × (find_from rounds s name len link ≡ ok l)
      × (deref s l ≢ 0)
      × (matches name len (s.types (deref s l)) ≡ true)
unfolding find_from
find_from-some rounds s name len link [] c some_match h = absurd (ground arith)
find_from-some zero s name len link (q ∷ qs) c some_match h = absurd (omega arith)
find_from-some (suc rounds) s name len link (q ∷ qs) (e, ne, c) some_match h =
    let here : (deref s link == 0) ≡ false = ground arith in
    elim (Bool-cases (matches name len (s.types q))) [
      | inl hit ↦ (link, rw (here, e, hit) refl, (λ z. ne (sym e ∙ z)), rw (e, hit) refl)
      | inr miss ↦
          let rest : any_match name len s.types qs ≡ true = ground arith in
          let (l, found, full, hit) =
            find_from-some rounds s name len (at_next q) qs (unfold deref in c) rest
              (omega arith) in
          (l, rw (here, e, miss) found, full, hit)
    ]

-- The last address of a chain with a first one.
abbrev pub last_ptr : Ptr → List Ptr → Ptr
last_ptr q [] = q
last_ptr q (r ∷ rs) = last_ptr r rs

pub last_link-at_next :
    (q : Ptr) (qs : List Ptr) → last_link (at_next q) qs ≡ at_next (last_ptr q qs)
last_link-at_next q [] = refl
last_link-at_next q (r ∷ rs) = last_link-at_next r rs

last_ptr-has : (a q : Ptr) (qs : List Ptr) → has a (q ∷ qs) ≡ false → (a == last_ptr q qs) ≡ false
last_ptr-has a q [] h = ground arith
last_ptr-has a q (r ∷ rs) h = last_ptr-has a r rs (ground arith)

-- Appending a new address at the end of a chain of distinct ones.
pub IsChain-append :
    (types : Ptr → FsType) (fs q : Ptr) (qs : List Ptr)
    → IsChain types (types q).next qs
    → Distinct (q ∷ qs)
    → has fs (q ∷ qs) ≡ false
    → fs ≢ 0
    → (types fs).next ≡ 0
    → IsChain
        (set_next types (last_ptr q qs) fs)
        (set_next types (last_ptr q qs) fs q).next
        (qs ++ fs ∷ [])
IsChain-append types fs q [] c d new ne last =
    let same : (q == q) ≡ true = ground arith in
    let apart : (fs == q) ≡ false = ground arith in (rw same refl, ne, rw apart last)
IsChain-append types fs q (r ∷ rs) (e, ne_r, c) d new ne last =
    let apart : (q == last_ptr r rs) ≡ false = last_ptr-has q r rs d.0 in
    let rest : has fs (r ∷ rs) ≡ false = ground arith in
    (rw apart e, ne_r, IsChain-append types fs r rs c d.1 rest ne last)
