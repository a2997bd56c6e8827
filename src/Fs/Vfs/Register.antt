-- ===== src/Fs/Vfs/Register.antt =====
-- Registering and unregistering a file system.
use saxon_os.Prelude.{
  ℕ, ◌%◌, ◌^◌, ◌<◌, ◌≡◌, ◌≢◌, refl, sym, subst, arith, List, [], ◌∷◌, ◌++◌, length, ◌==◌, ◌||◌,
  ◌&&◌, ltb, Bool, not, true, false, if◌then◌else◌, ok, Bool-cases, inl, inr, ◌⊎◌,
}
use saxon_os.Common.Strings.{
  Bytes, IsBytes, same_prefix, same_prefix-all, strncmp-same_prefix, IsLength, strlen-IsLength,
}
use saxon_os.Fs.Vfs.{
  Ptr, FsType, Vfs, matches, at_head, deref, assign, find_file_system, success, failure,
  register_filesystem,
}
use saxon_os.Fs.Vfs.Chain.{
  IsChain, has, Distinct, any_match, last_link, last_link-at_next, find_from-none, find_from-some,
  IsChain-append,
}

-- The registered types, in order.
pub record Registered (s : Vfs) (qs : List Ptr) : Type 0 where
  pub chain : IsChain s.types s.file_systems qs
  pub distinct : Distinct qs

appended :
    (s : Vfs) (fs : Ptr) (qs : List Ptr)
    → Registered s qs
    → has fs qs ≡ false
    → fs ≢ 0
    → (s.types fs).next ≡ 0
    → let s' = assign s (last_link at_head qs) fs in
      IsChain s'.types s'.file_systems (qs ++ fs ∷ [])
unfolding assign
appended s fs [] r new ne last = (refl, ne, last)
appended s fs (q ∷ qs) r new ne last =
    subst
      (λ link. let s' = assign s link fs in IsChain s'.types s'.file_systems (q ∷ qs ++ fs ∷ []))
      (sym (last_link-at_next q qs))
      (r.chain.0, r.chain.1, IsChain-append s.types fs q qs r.chain.2 r.distinct new ne last)

-- Some type on the list has a name that begins with the `len` characters.
abbrev pub any_begins : Bytes → ℕ → (Ptr → FsType) → List Ptr → Bool
any_begins name len types [] = false
any_begins name len types (q ∷ qs) =
    same_prefix len name (types q).name || any_begins name len types qs

any_match-any_begins :
    (name : Bytes) (len : ℕ) (types : Ptr → FsType) (qs : List Ptr)
    → IsBytes name
    → ((p : Ptr) → IsBytes (types p).name)
    → any_match name len types qs ≡ ltb 0 len && any_begins name len types qs
unfolding matches
any_match-any_begins name len types [] a b = ground arith
any_match-any_begins name len types (q ∷ qs) a b =
    rw
      (
        strncmp-same_prefix len name (types q).name a (b q),
        any_match-any_begins name len types qs a b,
      )
      (ground arith)

-- A type on the list has a name that begins with its own.
own_name :
    (types : Ptr → FsType) (fs : Ptr) (len : ℕ) (qs : List Ptr)
    → has fs qs ≡ true
    → any_begins (types fs).name len types qs ≡ true
own_name types fs len [] e = absurd (ground arith)
own_name types fs len (q ∷ qs) e = elim (Bool-cases (fs == q)) [
  | inl here ↦
      let same : q ≡ fs = ground arith in
      let whole : same_prefix len (types fs).name (types q).name ≡ true =
        rw same (same_prefix-all len _ _ (λ i p. refl)) in
      ground arith
  | inr later ↦ let rest = own_name types fs len qs (ground arith) in ground arith
]

module _ (rounds fs : ℕ) (s : Vfs) (qs : List Ptr) (len : ℕ) where
  append_or_fail :
      Registered s qs
      → (any_match (s.types fs).name len s.types qs ≡ false → has fs qs ≡ false)
      → fs ≢ 0
      → IsLength (s.types fs).name len
      → len < 2 ^ 8
      → len < rounds
      → length qs < rounds
      → let taken = not ((s.types fs).next == 0) || any_match (s.types fs).name len s.types qs in
        (s' : Vfs) × (register_filesystem rounds fs s ≡ ok (if taken then failure else success, s'))
        × (((taken ≡ true) × (s' ≡ s))
            ⊎ ((taken ≡ false) × IsChain s'.types s'.file_systems (qs ++ fs ∷ [])))
  unfolding register_filesystem find_file_system
  append_or_fail r new ne l short p q = elim (Bool-cases ((s.types fs).next == 0)) [
    | inr linked ↦ (s, rw linked refl, inl (rw linked refl, refl))
    | inl free ↦
        let name_length = strlen-IsLength rounds (s.types fs).name len l p in
        let narrow : len % 2 ^ 8 ≡ len = omega arith in
        elim (Bool-cases (any_match (s.types fs).name len s.types qs)) [
          | inl some_match ↦
              let (link, found, full, hit) =
                find_from-some rounds s (s.types fs).name len at_head qs (unfold deref in r.chain)
                  some_match q in
              let used : (deref s link == 0) ≡ false = ground arith in
              (
                s,
                rw (free, some_match, name_length, narrow, found, used) refl,
                inl (rw (free, some_match) refl, refl),
              )
          | inr no_match ↦
              let (found, end) =
                find_from-none rounds s (s.types fs).name len at_head qs (unfold deref in r.chain)
                  no_match q in
              (
                assign s (last_link at_head qs) fs,
                rw (free, no_match, name_length, narrow, found, end) refl,
                inr (rw (free, no_match) refl, appended s fs qs r (new no_match) ne (ground arith)),
              )
        ]
  ]

  -- With a list of distinct types, a name of at most 255 characters and rounds for both, and a type
  -- that has a name or is not on the list: if its `next` is null, and its name is empty or no
  -- registered name begins with it, it is appended to the list. In all other
  -- cases nothing changes, and the call fails.
  pub register_filesystem_lem :
      Registered s qs
      → (0 < len) ⊎ (has fs qs ≡ false)
      → fs ≢ 0
      → IsLength (s.types fs).name len
      → len < 2 ^ 8
      → len < rounds
      → length qs < rounds
      → ((p : Ptr) → IsBytes (s.types p).name)
      → let taken =
          not ((s.types fs).next == 0)
          || (ltb 0 len && any_begins (s.types fs).name len s.types qs) in
        (s' : Vfs) × (register_filesystem rounds fs s ≡ ok (if taken then failure else success, s'))
        × (((taken ≡ true) × (s' ≡ s))
            ⊎ ((taken ≡ false) × IsChain s'.types s'.file_systems (qs ++ fs ∷ [])))
  register_filesystem_lem r named ne l short p q names =
      subst
        (λ hit.
          let taken = not ((s.types fs).next == 0) || hit in
          (s' : Vfs) × (register_filesystem rounds fs s
            ≡ ok (if taken then failure else success, s'))
          × (((taken ≡ true) × (s' ≡ s))
              ⊎ ((taken ≡ false) × IsChain s'.types s'.file_systems (qs ++ fs ∷ []))))
        equal (append_or_fail r new ne l short p q)
    where
      equal :
          any_match (s.types fs).name len s.types qs
          ≡ ltb 0 len && any_begins (s.types fs).name len s.types qs
      equal = any_match-any_begins (s.types fs).name len s.types qs (names fs) names

      new : any_match (s.types fs).name len s.types qs ≡ false → has fs qs ≡ false
      new none_matches = elim named [
        | inr other ↦ other
        | inl some_name ↦ elim (Bool-cases (has fs qs)) [
          | inr other ↦ other
          | inl on_list ↦
              let own = own_name s.types fs len qs on_list in
              let long : ltb 0 len ≡ true = ground arith in absurd (ground (arith, equal))
        ]
      ]
