-- ===== src/Mm/Frame.antt =====
-- src/mm/frame.c: the bitmap of physical page frames, a bit for each frame of 4096 bytes.
pub mod Alloc
pub mod Free
pub mod Boot
use saxon_os.Prelude.{
  ℕ, zero, suc, ◌+◌, ◌-◌, ◌*◌, ◌/◌, ◌%◌, ◌^◌, ◌<<◌, ◌>>◌, bit_and, bit_or, u32, ltb, ◌==◌,
  if◌then◌else◌, Outcome, ok, panic, fault, hang, ◌>>=◌, Bool, true, false,
}

-- `uint32_t frame_map[0x2000]`.
abbrev pub map_words : ℕ
map_words = 0x2000

pub record Frames : Type 0 where
  pub nframes : ℕ
  pub frame_map : ℕ → ℕ

-- A read of `frame_map[w]`.
unfoldable pub word_at : Frames → ℕ → Outcome ℕ
word_at s w = if ltb w map_words then ok (s.frame_map w) else fault

abbrev pub update : (ℕ → ℕ) → ℕ → ℕ → ℕ → ℕ
update f w v j = if j == w then v else f j

-- The loop `while (frame_map[i/32] >> (i % 32) != 0)`; `nframes - 1` is a `uint32_t` difference.
unfoldable pub find_frame : ℕ → Frames → ℕ → Outcome ℕ
find_frame zero s i = hang
find_frame (suc rounds) s i =
    let next = find_frame rounds s (i + 1) in
    word_at s (i / 32) >>= λ word.
    if word >> (i % 32) == 0
    then ok i
    else if i == u32 (s.nframes + 2 ^ 32 - 1)
    then panic
    else next

-- One round for each bit of the map and one more: the loop leaves the array before it needs it.
abbrev pub map_rounds : ℕ
map_rounds = map_words * 32 + 1

-- `frame_map[i/32] |= 1 << (i % 32)`.
abbrev pub mark : Frames → ℕ → Frames
mark s i = record s {
  frame_map = update s.frame_map (i / 32) (u32 (bit_or (s.frame_map (i / 32)) (1 << (i % 32))));
}

unfoldable pub kalloc_frame : Frames → Outcome (ℕ × Frames)
unfolding word_at find_frame
kalloc_frame s = find_frame map_rounds s 0 >>= λ i. ok (u32 (i * 0x1000), mark s i)

-- `frame_map[frame/32] &= 0 << frame`, where `0 << frame` is 0.
unfoldable pub kfree_frame : ℕ → Frames → Outcome Frames
kfree_frame frame s =
    let n = frame / 0x1000 in
    if ltb n s.nframes
    then (if ltb (n / 32) map_words
        then ok (record s {
          frame_map = update s.frame_map (n / 32) (bit_and (s.frame_map (n / 32)) (0 << n));
        })
        else fault)
    else panic

-- The loop of `init_frames` that allocates the frames of the kernel's image.
pub reserve_frames : ℕ → Frames → Outcome Frames
unfolding kalloc_frame
reserve_frames zero s = ok s
reserve_frames (suc left) s = kalloc_frame s >>= λ r. reserve_frames left r.1

-- `memset(frame_map, 0, nframes/8)`, which ends within a word where `nframes / 8 % 4` is not 0.
abbrev pub clear_bytes : ℕ → (ℕ → ℕ) → ℕ → ℕ
clear_bytes n map w =
    if ltb w (n / 4)
    then 0
    else if w == n / 4
    then map w >> (8 * (n % 4)) << (8 * (n % 4))
    else map w

abbrev pub first_free_frame : ℕ → ℕ
first_free_frame end_kernel = u32 (bit_and end_kernel 0x00FFF000 + 0x1000)

pub init_frames : ℕ → ℕ → Frames → Outcome Frames
unfolding reserve_frames
init_frames end_kernel mem_size s =
    let n = mem_size / 4 in
    if ltb (4 * map_words) (n / 8)
    then fault
    else reserve_frames (first_free_frame end_kernel / 0x1000)
        (record { nframes = n; frame_map = clear_bytes (n / 8) s.frame_map })
