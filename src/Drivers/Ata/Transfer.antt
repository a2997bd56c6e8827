-- ===== src/Drivers/Ata/Transfer.antt =====
-- A transfer with a drive that is ready.
use saxon_os.Prelude.{
  ℕ, zero, suc, ◌+◌, ◌/◌, ◌%◌, ◌^◌, ◌*◌, ◌≤◌, ◌<◌, ◌≡◌, refl, arith, ap, ◌∙◌, false, List, [], ◌∷◌,
  u8, u16, u32, ok,
}
use saxon_os.Prelude.Io.{Device, Trace, rd8, rd16}
use saxon_os.Drivers.Ata.{
  Bdev, reg, command, poll, waiting, word_count, read_words, ata_read_sects_28_pio,
}

-- A history followed by `n` reads of the data port.
abbrev pub reads : ℕ → Bdev → Trace → Trace
reads zero dev t = t
reads (suc n) dev t = reads n dev (rd16 (u16 dev.base) ∷ t)

-- The drive hands out the words in order, behind a given history.
abbrev pub Serves : Device → Bdev → (ℕ → ℕ) → Trace → Type 0
Serves d dev word t = (i : ℕ) → d (reads i dev t) (rd16 (u16 dev.base)) ≡ word i

-- The bytes of `n` words from the `i`-th on, the low byte of each first.
abbrev pub bytes_of : (ℕ → ℕ) → ℕ → ℕ → List ℕ
bytes_of word i zero = []
bytes_of word i (suc n) = u8 (word i) ∷ u8 (word i / 2 ^ 8) ∷ bytes_of word (i + 1) n

read_words-bytes_of :
    (n i : ℕ) (d : Device) (dev : Bdev) (word : ℕ → ℕ) (t : Trace)
    → ((j : ℕ) → word j < 2 ^ 16)
    → ((j : ℕ) → d (reads j dev t) (rd16 (u16 dev.base)) ≡ word (i + j))
    → read_words n d dev t ≡ (bytes_of word i n, reads n dev t)
unfolding read_words
read_words-bytes_of zero i d dev word t small serves = refl
read_words-bytes_of (suc n) i d dev word t small serves =
    let first : i + 0 ≡ i = omega arith in
    let value : d t (rd16 (u16 dev.base)) % 2 ^ 16 ≡ word i =
      rw (serves 0, first) (omega (arith, small i)) in
    let rest =
      read_words-bytes_of n (i + 1) d dev word (rd16 (u16 dev.base) ∷ t) small
        (λ j. serves (suc j) ∙ ap word (omega arith)) in
    rw (value, rest) refl

pub poll-ready :
    (rounds : ℕ) (d : Device) (dev : Bdev) (t : Trace) (status : ℕ)
    → d t (rd8 (reg dev 7)) ≡ status
    → status < 128
    → (waiting status ≡ false)
    → poll (suc rounds) d dev t ≡ ok (status, rd8 (reg dev 7) ∷ t)
unfolding poll
poll-ready rounds d dev t status e small ready =
    let value : d t (rd8 (reg dev 7)) % 2 ^ 8 ≡ status = rw e (omega arith) in
    rw (value, ready) refl

-- A count of `sectors % 2 ^ 8`, as the register holds it, is for 256 words of each sector.
word_count-sectors :
    (sectors : ℕ) → 0 < sectors → sectors ≤ 256 → word_count (sectors % 2 ^ 8) ≡ sectors * 256
word_count-sectors sectors p q = ground arith

-- From 1 to 256 sectors are asked for, 256 of them by a count of 0. If the drive is ready with its
-- data when it is first asked (status 0x58), a read needs one round, and stores the words that the
-- drive hands out, 256 for each sector, the low byte of each first, and reads no more.
pub ata_read_sects_28_pio-Serves :
    (rounds : ℕ) (d : Device) (sectors : ℕ) (dev : Bdev) (rel_lba : ℕ) (word : ℕ → ℕ) (t : Trace)
    → 0 < sectors
    → sectors ≤ 256
    → ((j : ℕ) → word j < 2 ^ 16)
    → let asked = command dev (sectors % 2 ^ 8) (u32 (rel_lba + dev.start_lba)) 0x20 t in
      d asked (rd8 (reg dev 7)) ≡ 0x58
      → Serves d dev word (rd8 (reg dev 7) ∷ asked)
      → ata_read_sects_28_pio (suc rounds) d (sectors % 2 ^ 8) dev rel_lba t
        ≡ ok (bytes_of word 0 (sectors * 256), reads (sectors * 256) dev (rd8 (reg dev 7) ∷ asked))
unfolding ata_read_sects_28_pio
ata_read_sects_28_pio-Serves rounds d sectors dev rel_lba word t some few small ready serves =
    rw
      (poll-ready rounds d dev _ 0x58 ready (omega arith) refl, word_count-sectors sectors some few)
      (ap ok (
        read_words-bytes_of (sectors * 256) 0 d dev word _ small
          (λ j. serves j ∙ ap word (omega arith))))
