-- ===== src/GcHeap.antt =====
-- snow/gcheap.h: heaps that hand out memory from one chunk each, with the flags of their objects apart
-- from it, and lists of such heaps. `chunk` is the address that `gc_alloc_chunk` returns if it is called;
-- an address is a number, and NULL is 0. A list of heaps has its head first.
pub mod Blocks
pub mod Heaps
pub mod Flags
mod Tests
use snow.Base.{
  Bool, List, Option, Result, [], assert, fault, if◌then◌else◌, leb, length, ltb, none, not, ok,
  some, take, trap, ℕ, ◌%◌, ◌&&◌, ◌*◌, ◌++◌, ◌+◌, ◌-◌, ◌==◌, ◌>>=◌, ◌>>◌, ◌∷◌,
}
use Prim.Native.Nat.{bit_or}
use snow.Array.{u32_mod}
use snow.Memory.{Cell, blob, fill_cells, read_cell, write_cell}
use snow.Value.{Word, null}

-- `SnGCHeap`; a field that `gc_heap_init` leaves as the memory was is a cell.
pub record GcHeap : Type 0 where
  pub start : Word
  pub current : Word
  pub end : Word
  pub num_objects : ℕ
  pub num_reachable : Cell
  pub num_indefinite : Cell
  pub flag_bytes : Option (List Cell)
  pub num_flags : ℕ

abbrev pub head_size : ℕ
head_size = 16

abbrev pub tail_size : ℕ
tail_size = 16

abbrev pub gc_alignment : ℕ
gc_alignment = 16

abbrev pub gc_heap_init : GcHeap
gc_heap_init = record {
  start = null;
  current = null;
  end = null;
  num_objects = 0;
  num_reachable = none;
  num_indefinite = none;
  flag_bytes = none;
  num_flags = 0;
}

-- Without the calls that free the chunk and the flags.
abbrev pub gc_heap_finalize : GcHeap → GcHeap
gc_heap_finalize h = record h {
  start = null;
  current = null;
  end = null;
  flag_bytes = none;
  num_flags = 0;
}

unfoldable pub gc_heap_contains : GcHeap → Word → Bool
gc_heap_contains h root =
    not (h.start == null) && leb (h.start + head_size) root && ltb root (h.end - tail_size)

abbrev pub with_chunk : GcHeap → Word → ℕ → GcHeap
with_chunk h chunk heap_size =
    if h.start == null
    then record h { start = chunk; current = chunk; end = chunk + heap_size }
    else h

abbrev pub bump : GcHeap → ℕ → Option (Word × ℕ) × GcHeap
bump h total_size = if ltb h.end (h.current + total_size) then (none, h) else (
  some (h.current, h.num_objects),
  record h { current = h.current + total_size; num_objects = (h.num_objects + 1) % u32_mod },
)

-- The address and the object index, or NULL when the chunk has no room.
unfoldable pub gc_heap_alloc : GcHeap → ℕ → Word → ℕ → Result (Option (Word × ℕ) × GcHeap)
gc_heap_alloc h total_size chunk heap_size = do
  assert (total_size % gc_alignment == 0)
  ok (bump (with_chunk h chunk heap_size) total_size)

unfoldable pub gc_heap_get_flags : GcHeap → ℕ → Result Word
gc_heap_get_flags h flag_index = do
  assert (ltb flag_index h.num_objects)
  elim h.flag_bytes [ none ↦ ok 0 | some d ↦ read_cell d flag_index ]

-- `snow_realloc`: the bytes stay, the new ones are not known.
abbrev pub realloc_bytes : Option (List Cell) → ℕ → List Cell
realloc_bytes none n = blob n
realloc_bytes (some d) n = take n d ++ blob (n - length d)

unfoldable pub grow_flags : GcHeap → Result GcHeap
grow_flags h =
    if ltb h.num_flags h.num_objects
    then (let num = (2 * h.num_objects) % u32_mod in
        do
          d ← fill_cells 0 (realloc_bytes h.flag_bytes num) h.num_flags (num - h.num_flags)
          ok (record h { flag_bytes = some d; num_flags = num }))
    else ok h

unfoldable pub or_flags : GcHeap → ℕ → Word → Result GcHeap
or_flags h flag_index flags = elim h.flag_bytes [
  | none ↦ fault
  | some d ↦ read_cell d flag_index >>= λ old.
      write_cell d flag_index (bit_or old flags) >>= λ after.
      ok (record h { flag_bytes = some after })
]

unfoldable pub gc_heap_set_flags : GcHeap → ℕ → Word → Result GcHeap
gc_heap_set_flags h flag_index flags = do
  assert (ltb flag_index h.num_objects)
  grown ← grow_flags h
  or_flags grown flag_index flags

abbrev pub gc_heap_clear_flags : GcHeap → GcHeap
gc_heap_clear_flags h = record h {
  flag_bytes = none;
  num_flags = 0;
  num_indefinite = some 0;
  num_reachable = some 0;
}

abbrev pub gc_heap_available : GcHeap → ℕ
gc_heap_available h = h.end - h.current

abbrev pub gc_heap_list_init : List GcHeap
gc_heap_list_init = []

-- With a heap to copy, or with none.
abbrev pub gc_heap_list_push_heap : List GcHeap → Option GcHeap → List GcHeap
gc_heap_list_push_heap list none = gc_heap_init ∷ list
gc_heap_list_push_heap list (some h) = h ∷ list

-- The rest of a list operation after the heap in front has been allocated from.
abbrev pub allocated : List GcHeap → Option (Word × ℕ) × GcHeap → Result (Word × ℕ × List GcHeap)
allocated rest (none, h) = trap
allocated rest (some (p, i), h) = ok (p, i, h ∷ rest)

abbrev pub behind : GcHeap → Word × ℕ × List GcHeap → Word × ℕ × List GcHeap
behind h (p, i, rest) = (p, i, h ∷ rest)

-- The loop: the first heap with room, if there is one.
unfoldable pub list_alloc_in : List GcHeap → ℕ → Word → ℕ → Option (Result (Word × ℕ × List GcHeap))
list_alloc_in [] size chunk heap_size = none
list_alloc_in (h ∷ hs) size chunk heap_size =
    let further = list_alloc_in hs size chunk heap_size in
    if leb size (gc_heap_available h)
    then some (gc_heap_alloc h size chunk heap_size >>= allocated hs)
    else elim further [ none ↦ none | some r ↦ some (r >>= λ found. ok (behind h found)) ]

-- If no heap has room, a new one at the head.
abbrev pub or_in_new :
    List GcHeap
    → ℕ
    → Word
    → ℕ
    → Option (Result (Word × ℕ × List GcHeap))
    → Result (Word × ℕ × List GcHeap)
or_in_new list size chunk heap_size none =
    gc_heap_alloc gc_heap_init size chunk heap_size >>= allocated list
or_in_new list size chunk heap_size (some r) = r

unfoldable pub gc_heap_list_alloc : List GcHeap → ℕ → Word → ℕ → Result (Word × ℕ × List GcHeap)
gc_heap_list_alloc list size chunk heap_size =
    or_in_new list size chunk heap_size (list_alloc_in list size chunk heap_size)

unfoldable pub gc_heap_list_find_heap : List GcHeap → Word → Option GcHeap
gc_heap_list_find_heap [] ptr = none
gc_heap_list_find_heap (h ∷ hs) ptr =
    let further = gc_heap_list_find_heap hs ptr in
    if gc_heap_contains h ptr then some h else further

abbrev pub gc_heap_list_clear_flags : List GcHeap → List GcHeap
gc_heap_list_clear_flags [] = []
gc_heap_list_clear_flags (h ∷ hs) = gc_heap_clear_flags h ∷ gc_heap_list_clear_flags hs
