-- ===== src/Fs/Mbr/Entry.antt =====
-- The part of the partition's entry that is kept.
use saxon_os.Prelude.{
  ℕ, zero, suc, ◌+◌, ◌%◌, ◌^◌, ◌<◌, ◌≡◌, refl, ap, ◌∙◌, arith, ltb, leb, ◌==◌, ◌&&◌, not,
  if◌then◌else◌, true, false, Bool-cases, inl, inr, every_below, every_below_at, u16, ◌∷◌, ok,
}
use saxon_os.Prelude.Io.{Device, Trace, rd8, rd16}
use saxon_os.Drivers.Ata.{Bdev, reg, command, waiting}
use saxon_os.Drivers.Ata.Transfer.{reads, Serves, poll-ready}
use saxon_os.Fs.Mbr.{read_entry, parse_mbr}

not_busy : (status : ℕ) → status < 128 → waiting status ≡ false
not_busy status h =
    let all : every_below 128 (λ s. not (waiting s)) ≡ true = unfold every_below in refl in
    ground (arith, every_below_at 128 (λ s. not (waiting s)) all status h)

-- One step of the loop, on what is kept.
kept :
    (word : ℕ → ℕ) (left i start_lba : ℕ)
    → (if leb (i + 1) 227 && ltb 227 (i + 1 + left)
        then word 227
        else if i == 227
        then word i
        else start_lba)
      ≡ (if leb i 227 && ltb 227 (i + suc left) then word 227 else start_lba)
kept word left i start_lba = elim (Bool-cases (i == 227)) [
  | inl here ↦ let same : word i ≡ word 227 = ap word (ground arith) in ground arith
  | inr elsewhere ↦ ground arith
]

-- Word 227 of the sector is the one that is kept.
read_entry-reads :
    (left i : ℕ) (d : Device) (dev : Bdev) (word : ℕ → ℕ) (start_lba : ℕ) (t : Trace)
    → ((j : ℕ) → word j < 2 ^ 16)
    → ((j : ℕ) → d (reads j dev t) (rd16 (u16 dev.base)) ≡ word (i + j))
    → read_entry left i d dev start_lba t
      ≡ (if leb i 227 && ltb 227 (i + left) then word 227 else start_lba, reads left dev t)
unfolding read_entry
read_entry-reads zero i d dev word start_lba t small serves = ap (λ x. (x, t)) (ground arith)
read_entry-reads (suc left) i d dev word start_lba t small serves =
    let first : i + 0 ≡ i = omega arith in
    let value : d t (rd16 (u16 dev.base)) % 2 ^ 16 ≡ word i =
      rw (serves 0, first) (omega (arith, small i)) in
    let rest =
      read_entry-reads left (i + 1) d dev word (if i == 227 then word i else start_lba)
        (rd16 (u16 dev.base) ∷ t) small (λ j. serves (suc j) ∙ ap word (omega arith)) in
    rw (value, rest)
      (ap (λ x. (x, reads left dev (rd16 (u16 dev.base) ∷ t))) (kept word left i start_lba))

-- From a drive that is not busy when it is first asked, with or without an error, `parse_mbr` needs
-- one round. It reads one whole sector, and the device then starts at word 227 of that sector: the
-- low half of the 32 bits at byte 454, where the first partition's entry has its start.
pub parse_mbr-Serves :
    (rounds : ℕ) (d : Device) (dev : Bdev) (word : ℕ → ℕ) (status : ℕ) (t : Trace)
    → ((j : ℕ) → word j < 2 ^ 16)
    → status < 128
    → let asked = command dev 1 dev.start_lba 0x20 t in
      d asked (rd8 (reg dev 7)) ≡ status
      → Serves d dev word (rd8 (reg dev 7) ∷ asked)
      → parse_mbr (suc rounds) d dev t
        ≡ ok (record dev { start_lba = word 227 }, reads 256 dev (rd8 (reg dev 7) ∷ asked))
unfolding parse_mbr
parse_mbr-Serves rounds d dev word status t small calm ready serves =
    let asked = command dev 1 dev.start_lba 0x20 t in
    let polled = poll-ready rounds d dev asked status ready calm (not_busy status calm) in
    let entry =
      read_entry-reads 256 0 d dev word dev.start_lba (rd8 (reg dev 7) ∷ asked) small
        (λ j. serves j ∙ ap word (omega arith)) in
    rw (polled, entry) refl
