-- ===== src/Prelude/Io.antt =====
-- Port input and output. The hardware is not part of the repository: it is a function from the
-- history of accesses to the value that a read returns. The accessors are `common.c`'s.
use Prim.Native.Nat.{ℕ, ◌%◌, ◌^◌}
use mathlib.Core.List.{List, ◌∷◌}

-- One `in` or `out` instruction: its port, and for `out` the value.
pub data Event : Type 0 where
  wr8 wr16 wr32 : ℕ → ℕ → Event
  rd8 rd16 rd32 : ℕ → Event

-- The accesses so far, the last one first.
abbrev pub Trace : Type 0
Trace = List Event

-- What the hardware answers to a read, given the accesses before it.
abbrev pub Device : Type 0
Device = Trace → Event → ℕ

abbrev pub outb : ℕ → ℕ → Trace → Trace
outb port value t = wr8 port (value % 2 ^ 8) ∷ t

abbrev pub outw : ℕ → ℕ → Trace → Trace
outw port value t = wr16 port (value % 2 ^ 16) ∷ t

abbrev pub outl : ℕ → ℕ → Trace → Trace
outl port value t = wr32 port (value % 2 ^ 32) ∷ t

abbrev pub inb : Device → ℕ → Trace → ℕ × Trace
inb d port t = (d t (rd8 port) % 2 ^ 8, rd8 port ∷ t)

abbrev pub inw : Device → ℕ → Trace → ℕ × Trace
inw d port t = (d t (rd16 port) % 2 ^ 16, rd16 port ∷ t)

abbrev pub inl : Device → ℕ → Trace → ℕ × Trace
inl d port t = (d t (rd32 port) % 2 ^ 32, rd32 port ∷ t)
