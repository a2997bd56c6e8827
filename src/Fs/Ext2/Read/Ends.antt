-- ===== src/Fs/Ext2/Read/Ends.antt =====
-- What the loops of `ext2_read` end in.
use saxon_os.Prelude.{
  ℕ, zero, suc, ◌+◌, ◌-◌, ◌/◌, ◌<◌, ◌≤◌, ◌≡◌, ◌≢◌, refl, ap, subst, sym, ◌∙◌, arith, ltb, leb, ◌==◌,
  ◌&&◌, ◌||◌, not, if◌then◌else◌, true, false, ◌⊎◌, Outcome, ok, hang, ◌>>=◌,
}
use saxon_os.Fs.Devfs.{chars_of}
use saxon_os.Fs.Ext2.{Ext2, Sector, sector_size}
use saxon_os.Fs.Ext2.Read.Loop.{
  sectors_per_block, Readable, Readable-step, Readable-some, Readable-none, after, after-zero,
  after-step,
}
use saxon_os.Fs.Ext2.Read.{Reading, read_sector, read_sectors, read_direct}

module _ (sector : ℕ → Sector) (g : Ext2) (block : ℕ → ℕ) where
  -- All rounds of the loop over the direct blocks from a state on end in `e`.
  Ends : Outcome Reading → Reading → Type 0
  Ends e s = (rounds : ℕ) → 0 < rounds → read_direct sector g block rounds s ≡ e

  -- What the loop over the sectors of a block, and what follows it, end in.
  Inner : Outcome Reading → (n : ℕ) → Type 0
  Inner e n =
      (left k : ℕ)
      → k + suc left ≡ sectors_per_block g
      → (s : Reading) → Readable sector g block n s
      → Ends e (after sector g block n k s)
      → (rounds : ℕ) → 0 < rounds
      → n ≤ rounds
      → (read_sectors sector g block (suc left) k s >>= read_direct sector g block rounds) ≡ e

  -- A round of the loop over the direct blocks that has a sector to read.
  read_direct_goes :
      (rounds : ℕ)
      → (s : Reading) → (n : ℕ) → Readable sector g block (suc n) s
      → read_direct sector g block (suc rounds) s ≡ (
          read_sectors sector g block (sectors_per_block g) 0 s
          >>= read_direct sector g block rounds)
  unfolding read_direct
  read_direct_goes rounds s n r =
      let d = r.direct in
      let first : block s.i ≢ 0 = λ e. r.in_use 0 (omega arith) (ap block (omega arith) ∙ e) in
      let goes : (ltb s.i 12 && not (block s.i == 0)) ≡ true = ground arith in rw goes refl

  outer-Ends :
      (e : Outcome Reading)
      → (n : ℕ) → Inner e n
      → 0 < sectors_per_block g
      → (s : Reading) → Readable sector g block n s
      → Ends e (after sector g block n 0 s)
      → (rounds : ℕ) → n < rounds
      → read_direct sector g block rounds s ≡ e
  unfolding Inner Ends
  outer-Ends e zero inner some s r end rounds enough =
      subst (λ z. read_direct sector g block rounds z ≡ e)
        (after-zero sector g block 0 s (Readable-none sector g block s r)) (end rounds enough)
  outer-Ends e (suc n) inner some s r end zero enough = absurd (omega arith)
  outer-Ends e (suc n) inner some s r end (suc rounds) enough =
      read_direct_goes rounds s n r ∙ first ((sectors_per_block g) - 1) (omega arith)
    where
      first :
          (left : ℕ)
          → suc left ≡ sectors_per_block g
          → (read_sectors sector g block (sectors_per_block g) 0 s
              >>= read_direct sector g block rounds)
            ≡ e
      first left at =
          subst (λ b. (read_sectors sector g block b 0 s >>= read_direct sector g block rounds) ≡ e)
            at (inner left 0 (omega arith) s r end rounds (omega arith) (omega arith))

  Inner-Ends : (e : Outcome Reading) → 0 < (sectors_per_block g) → (n : ℕ) → Inner e n
  unfolding Inner Ends read_sectors
  Inner-Ends e some zero left k at s r end rounds more enough =
      let nothing : (s.count == 0) ≡ true =
        let z = Readable-none sector g block s r in ground arith in
      rw nothing (
        subst (λ z. read_direct sector g block rounds z ≡ e)
          (after-zero sector g block k s (Readable-none sector g block s r)) (end rounds more))
  Inner-Ends e some (suc n) left k at s r end rounds more enough =
      let some_left : (s.count == 0) ≡ false =
        let z = Readable-some sector g block n s r in ground arith in
      let d = r.direct in
      let i = r.inside in
      let inside : (leb 12 s.i || ltb sector_size (s.offset + chars_of s.count)) ≡ false =
        ground arith in
      rw (some_left, inside) (rest (Inner-Ends e some n) left at)
    where
      moved :
          (w : ℕ)
          → (if k + 1 == sectors_per_block g then 0 else k + 1) ≡ w
          → Ends e (after sector g block n w (read_sector sector g block k s))
      moved w f =
          subst (λ x. Ends e (after sector g block n x (read_sector sector g block k s))) f
            (subst (Ends e) (sym (after-step sector g block n k s r)) end)

      rest :
          Inner e n
          → (left : ℕ) → k + suc left ≡ sectors_per_block g
          → (read_sectors sector g block left (k + 1) (read_sector sector g block k s)
              >>= read_direct sector g block rounds)
            ≡ e
      rest ih zero at =
          outer-Ends e n ih some (read_sector sector g block k s)
            (Readable-step sector g block n k s r) (moved 0 (ground arith)) rounds (omega arith)
      rest ih (suc left) at =
          ih left (k + 1) (omega arith) (read_sector sector g block k s)
            (Readable-step sector g block n k s r) (moved (k + 1) (ground arith)) rounds more
            (omega arith)

  -- What the loop over the direct blocks ends in, when it reads all that is asked for.
  pub read_direct-ends :
      (e : Outcome Reading)
      → 0 < sectors_per_block g
      → (n : ℕ) → (s : Reading) → Readable sector g block n s
      → ((rounds : ℕ)
          → 0 < rounds
          → read_direct sector g block rounds (after sector g block n 0 s) ≡ e)
      → (rounds : ℕ) → n < rounds
      → read_direct sector g block rounds s ≡ e
  unfolding Ends
  read_direct-ends e some n s r end rounds enough =
      outer-Ends e n (Inner-Ends e some n) some s r end rounds enough

  idle : (s : Reading) → s.count ≡ 0 → (left : ℕ) → read_sectors sector g block left 0 s ≡ ok s
  unfolding read_sectors
  idle s none zero = refl
  idle s none (suc left) = let z : (s.count == 0) ≡ true = ground arith in rw z refl

  -- With nothing left to read and a direct block ahead that is in use, the loop goes on for ever.
  pub read_direct-hang :
      (s : Reading)
      → s.count ≡ 0
      → s.i < 12
      → block s.i ≢ 0
      → (rounds : ℕ) → read_direct sector g block rounds s ≡ hang
  unfolding read_direct
  read_direct-hang s none few used zero = refl
  read_direct-hang s none few used (suc rounds) =
      let goes : (ltb s.i 12 && not (block s.i == 0)) ≡ true = ground arith in
      rw goes (
        ap (λ o. o >>= read_direct sector g block rounds) (idle s none (g.block_size / sector_size))
        ∙ read_direct-hang s none few used rounds)

  -- It ends behind the last direct block, and at a block that is not in use.
  pub read_direct-stop :
      (s : Reading)
      → (12 ≤ s.i) ⊎ (block s.i ≡ 0)
      → (rounds : ℕ) → 0 < rounds
      → read_direct sector g block rounds s ≡ ok s
  unfolding read_direct
  read_direct-stop s stop zero some = absurd (omega arith)
  read_direct-stop s stop (suc rounds) some =
      let ends : (ltb s.i 12 && not (block s.i == 0)) ≡ false = ground arith in rw ends refl
