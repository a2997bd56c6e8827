-- ===== src/Common/Strings.antt =====
-- `strlen`, `strcmp`, `strncmp` and `memcmp` of src/common.c. A pointer stands for the bytes that
-- follow it, so none of these functions can leave the memory.
use saxon_os.Prelude.{
  sym, ◌∙◌, ◌&&◌, Bool, true, ℕ, zero, suc, ◌+◌, ◌-◌, ◌%◌, ◌^◌, ◌<◌, ◌≤◌, ◌≡◌, ◌≢◌, ◌↔◌, refl, ap,
  arith, ltb, ◌==◌, if◌then◌else◌, Bool-cases, inl, inr, Outcome, ok, hang, false,
}

abbrev pub Bytes : Type 0
Bytes = ℕ → ℕ

abbrev pub IsBytes : Bytes → Type 0
IsBytes s = (i : ℕ) → s i < 256

-- A `char` as an `int`, both as bit patterns: plain `char` is signed.
abbrev pub int_of_char : ℕ → ℕ
int_of_char c = if ltb c 128 then c else c + 2 ^ 32 - 256

-- A difference of two `int`s.
abbrev pub int_sub : ℕ → ℕ → ℕ
int_sub a b = (a + 2 ^ 32 - b) % 2 ^ 32

pub strlen_from : ℕ → Bytes → ℕ → Outcome ℕ
strlen_from zero str i = hang
strlen_from (suc rounds) str i =
    let rest = strlen_from rounds str (i + 1) in if str i == 0 then ok i else rest

pub strlen : ℕ → Bytes → Outcome ℕ
strlen rounds str = strlen_from rounds str 0

-- `for (size_t i = 0; i; i++)`: the index is the loop's condition.
pub strcmp_from : ℕ → Bytes → Bytes → ℕ → Outcome ℕ
strcmp_from zero s1 s2 i = hang
strcmp_from (suc rounds) s1 s2 i =
    let rest = strcmp_from rounds s1 s2 ((i + 1) % 2 ^ 32) in
    if i == 0
    then ok 0
    else if s1 i == s2 i
    then rest
    else ok (int_sub (int_of_char (s1 i)) (int_of_char (s2 i)))

pub strcmp : ℕ → Bytes → Bytes → Outcome ℕ
strcmp rounds s1 s2 = strcmp_from rounds s1 s2 0

unfoldable pub strncmp_from : ℕ → ℕ → Bytes → Bytes → ℕ
strncmp_from zero i s1 s2 = 0
strncmp_from (suc left) i s1 s2 =
    let rest = strncmp_from left (i + 1) s1 s2 in
    if s1 i == s2 i then rest else int_sub (int_of_char (s1 i)) (int_of_char (s2 i))

unfoldable pub strncmp : Bytes → Bytes → ℕ → ℕ
strncmp s1 s2 n = if n == 0 then 0 else strncmp_from n 0 s1 s2

pub memcmp_from : ℕ → ℕ → Bytes → Bytes → ℕ
memcmp_from zero i s1 s2 = 0
memcmp_from (suc left) i s1 s2 =
    let rest = memcmp_from left (i + 1) s1 s2 in
    if s1 i == s2 i then rest else int_sub (s1 i) (s2 i)

pub memcmp : Bytes → Bytes → ℕ → ℕ
memcmp s1 s2 n = if n == 0 then 0 else memcmp_from n 0 s1 s2

-- `n` is the place of the first zero byte.
pub record IsLength (str : Bytes) (n : ℕ) : Type 0 where
  pub ends : str n ≡ 0
  pub no_earlier : (i : ℕ) → i < n → str i ≢ 0

strlen_from-ok :
    (rounds : ℕ) (str : Bytes) (n i : ℕ)
    → IsLength str n
    → i ≤ n
    → n < i + rounds
    → strlen_from rounds str i ≡ ok n
unfolding strlen_from
strlen_from-ok zero str n i l p q = absurd (omega arith)
strlen_from-ok (suc rounds) str n i l p q = elim (Bool-cases (i == n)) [
  | inl there ↦ let e : i ≡ n = ground arith in rw (e, l.ends) refl
  | inr before ↦
      let more : (str i == 0) ≡ false = ground (arith, l.no_earlier i) in
      rw more (strlen_from-ok rounds str n (i + 1) l (ground arith) (omega arith))
]

-- `strlen` finds the first zero byte within one round for each byte up to it.
pub strlen-IsLength :
    (rounds : ℕ) (str : Bytes) (n : ℕ) → IsLength str n → n < rounds → strlen rounds str ≡ ok n
unfolding strlen
strlen-IsLength rounds str n l h = strlen_from-ok rounds str n 0 l (omega arith) (omega arith)

-- `strcmp` returns 0 for any two strings: its loop is never entered.
pub strcmp-zero : (rounds : ℕ) (s1 s2 : Bytes) → strcmp (suc rounds) s1 s2 ≡ ok 0
unfolding strcmp strcmp_from
strcmp-zero rounds s1 s2 = refl

abbrev Same : ℕ → ℕ → Bytes → Bytes → Type 0
Same i n s1 s2 = (j : ℕ) → i ≤ j → j < i + n → s1 j ≡ s2 j

Same-suc : (i n : ℕ) (s1 s2 : Bytes) → s1 i ≡ s2 i → Same (i + 1) n s1 s2 → Same i (suc n) s1 s2
Same-suc i n s1 s2 e h j p q = elim (Bool-cases (j == i)) [
  | inl here ↦ let f : j ≡ i = ground arith in rw f e
  | inr later ↦ h j (ground arith) (omega arith)
]

strncmp_from_iff :
    (n i : ℕ) (s1 s2 : Bytes)
    → IsBytes s1
    → IsBytes s2
    → (strncmp_from n i s1 s2 ≡ 0) ↔ Same i n s1 s2
unfolding strncmp_from
strncmp_from_iff zero i s1 s2 b1 b2 = (λ e j p q. absurd (omega arith), λ h. refl)
strncmp_from_iff (suc n) i s1 s2 b1 b2 = elim (Bool-cases (s1 i == s2 i)) [
  | inl same ↦
      let e : s1 i ≡ s2 i = ground arith in
      let (to, from) = strncmp_from_iff n (i + 1) s1 s2 b1 b2 in
      rw same (λ z. Same-suc i n s1 s2 e (to z), λ h. from λ j p q. h j (omega arith) (omega arith))
  | inr differ ↦ rw differ (
    λ z. absurd (ground (arith, b1 i, b2 i)),
    λ h. absurd (ground (arith, h i (omega arith) (omega arith))),
  )
]

strncmp_from-agree :
    (left i : ℕ) (s a b : Bytes)
    → ((j : ℕ) → j < i + left → a j ≡ b j)
    → strncmp_from left i s a ≡ strncmp_from left i s b
unfolding strncmp_from
strncmp_from-agree zero i s a b same = refl
strncmp_from-agree (suc left) i s a b same =
    rw (same i (omega arith), strncmp_from-agree left (i + 1) s a b (λ j p. same j (omega arith)))
      refl

-- `strncmp` reads only the first `n` bytes.
pub strncmp-agree :
    (s a b : Bytes) (n : ℕ) → ((j : ℕ) → j < n → a j ≡ b j) → strncmp s a n ≡ strncmp s b n
unfolding strncmp
strncmp-agree s a b n same =
    ap (λ d. if n == 0 then 0 else d) (strncmp_from-agree n 0 s a b (λ j p. same j (omega arith)))

-- `strncmp` returns 0 exactly if the first `n` bytes agree. A zero byte does not end the
-- comparison, and no names that differ in these bytes compare as equal.
pub strncmp-zero_iff :
    (s1 s2 : Bytes) (n : ℕ)
    → IsBytes s1
    → IsBytes s2
    → (strncmp s1 s2 n ≡ 0) ↔ ((i : ℕ) → i < n → s1 i ≡ s2 i)
unfolding strncmp
strncmp-zero_iff s1 s2 zero b1 b2 = (λ e i p. absurd (omega arith), λ h. refl)
strncmp-zero_iff s1 s2 (suc n) b1 b2 =
    let (to, from) = strncmp_from_iff (suc n) 0 s1 s2 b1 b2 in
    let some_bytes : (suc n == 0) ≡ false = ground arith in
    rw some_bytes
      (λ z i p. to z i (omega arith) (omega arith), λ h. from λ j p q. h j (omega arith))

-- The first `n` bytes of two strings are the same.
abbrev pub same_prefix : ℕ → Bytes → Bytes → Bool
same_prefix zero a b = true
same_prefix (suc n) a b = (a n == b n) && same_prefix n a b

same_prefix_at : (n : ℕ) (a b : Bytes) → same_prefix n a b ≡ true → (i : ℕ) → i < n → a i ≡ b i
same_prefix_at zero a b e i p = absurd (omega arith)
same_prefix_at (suc n) a b e i p = elim (Bool-cases (i == n)) [
  | inl last ↦ let same : i ≡ n = ground arith in rw same (ground arith)
  | inr earlier ↦ same_prefix_at n a b (ground arith) i (ground arith)
]

pub same_prefix-all :
    (n : ℕ) (a b : Bytes) → ((i : ℕ) → i < n → a i ≡ b i) → same_prefix n a b ≡ true
same_prefix-all zero a b h = refl
same_prefix-all (suc n) a b h =
    let last = h n (omega arith) in
    let rest = same_prefix-all n a b (λ i p. h i (omega arith)) in ground arith

pub strncmp-same_prefix :
    (n : ℕ) (a b : Bytes) → IsBytes a → IsBytes b → (strncmp a b n == 0) ≡ same_prefix n a b
strncmp-same_prefix n a b p q =
    let (to, from) = strncmp-zero_iff a b n p q in
    elim (Bool-cases (strncmp a b n == 0)) [
      | inl equal ↦ equal ∙ sym (same_prefix-all n a b (to (ground arith)))
      | inr differ ↦ elim (Bool-cases (same_prefix n a b)) [
        | inl same ↦ let zero_result = from (same_prefix_at n a b same) in absurd (ground arith)
        | inr other ↦ differ ∙ sym other
      ]
    ]
