-- ===== src/Memory.antt =====
-- Words in memory, as the array functions of snow/array-intern.h meet them: a blob from
-- `snow_gc_alloc_blob` is a list of cells, and a cell that nothing has been written to is `none`.
-- Reading such a cell, or any access past the end, is a fault.
pub mod Prefix
use snow.Base.{
  List, Option, Result, drop, fault, get_elem?, if◌then◌else◌, leb, length, ltb, none, ok,
  replicate, set, some, suc, take, zero, ℕ, ◌&&◌, ◌++◌, ◌+◌, ◌>>=◌,
}
use snow.Value.{Word}

abbrev pub Cell : Type 0
Cell = Option Word

-- `snow_gc_alloc_blob(n * sizeof(VALUE))`: the contents are not promised.
abbrev pub blob : ℕ → List Cell
blob n = replicate n none

-- `data[i]`
unfoldable pub read_cell : List Cell → ℕ → Result Word
read_cell d i = elim (get_elem? d i) [
  | none ↦ fault
  | some c ↦ elim c [ none ↦ fault | some v ↦ ok v ]
]

-- `data[i] = v`
unfoldable pub write_cell : List Cell → ℕ → Word → Result (List Cell)
write_cell d i v = if ltb i (length d) then ok (set d i (some v)) else fault

-- `memcpy(dst, src, n * sizeof(VALUE))`
unfoldable pub copy_cells : List Cell → List Cell → ℕ → Result (List Cell)
copy_cells dst src n =
    if leb n (length src) && leb n (length dst) then ok (take n src ++ drop n dst) else fault

-- `for (i = start; i < start + k; ++i) data[i] = v`
unfoldable pub fill_cells : Word → List Cell → (i k : ℕ) → Result (List Cell)
fill_cells v d i zero = ok d
fill_cells v d i (suc k) = do d' ← write_cell d i v; fill_cells v d' (i + 1) k
