-- ===== src/Sweep/Moved.antt =====
-- A moved object: its contents, its new head and tail, and the address left behind.
use snow.Base.{
  ap, arith, false, inl, inr, refl, true, ℕ, ◌+◌, ◌-◌, ◌<◌, ◌==◌, ◌^◌, ◌∙◌, ◌≡◌, ◌≤◌, ◌⊎◌,
}
use snow.Sweep.{copy_bytes, fill_ef, info_type, is_inside, move_object}
use snow.Header.{
  gc_check_checksum, gc_compute_checksum, gc_init_allocation, info_size, magic_bead_head,
  magic_bead_tail, pack_info, store,
}
use snow.Value.{Word}
use snow.GcHeap.{head_size}
use snow.Header.Checksum.{
  FewBits, four_words, four_words-AreWritten, gc_check_checksum-gc_compute_checksum,
  info_size-gc_compute_checksum,
}

-- What is read after the moves of memory, for memory that has the new head and tail.
left_behind :
    (m : ℕ → Word) (o n : Word) (size : ℕ)
    → store (fill_ef (copy_bytes m n o size) o size) o n o ≡ n
left_behind m o n size = ground arith

copied_over :
    (m : ℕ → Word) (o n : Word) (size x : ℕ)
    → x < size
    → (n + size ≤ o) ⊎ (o + size ≤ n)
    → store (fill_ef (copy_bytes m n o size) o size) o n (n + x) ≡ m (o + x)
copied_over m o n size x inside apart =
    let not_o : (n + x == o) ≡ false = ground arith in
    let not_old : is_inside o size (n + x) ≡ false = ground arith in
    let in_copy : is_inside n size (n + x) ≡ true = ground arith in
    let e : o + (n + x - n) ≡ o + x = omega arith in rw (not_o, not_old, in_copy, e) refl

elsewhere :
    (m : ℕ → Word) (o n : Word) (size y : ℕ)
    → (y < n) ⊎ (n + size ≤ y)
    → (y < o) ⊎ (o + size ≤ y)
    → 0 < size
    → store (fill_ef (copy_bytes m n o size) o size) o n y ≡ m y
elsewhere m o n size y out_new out_old some_size = ground arith

-- What belongs to the new allocation lies beside the old one.
beside :
    (p o size y : ℕ)
    → (p + 32 + size ≤ o - 16) ⊎ (o + size + 16 ≤ p)
    → p ≤ y
    → y < p + 32 + size
    → (y < o) ⊎ (o + size ≤ y)
beside p o size y apart lo hi = elim apart [ inl l ↦ inl (omega arith) | inr r ↦ inr (omega arith) ]

new_apart :
    (p o size : ℕ)
    → (p + 32 + size ≤ o - 16) ⊎ (o + size + 16 ≤ p)
    → (p + 16 + size ≤ o) ⊎ (o + size ≤ p + 16)
new_apart p o size apart = elim apart [ inl l ↦ inl (omega arith) | inr r ↦ inr (omega arith) ]

old_apart :
    (p o size x : ℕ)
    → (p + 32 + size ≤ o - 16) ⊎ (o + size + 16 ≤ p)
    → x < size
    → (o + x < p) ⊎ (p + 16 + size + 16 ≤ o + x)
old_apart p o size x apart inside = elim apart [
  | inl l ↦ inr (omega arith)
  | inr r ↦ inl (omega arith)
]

untouched :
    (m : ℕ → Word) (p tail info f y : Word)
    → p + 16 ≤ tail
    → (y < p) ⊎ (tail + 16 ≤ y)
    → four_words m p tail info f y ≡ m y
untouched m p tail info f y order out = ground arith

module _ (popcount : Word → ℕ) (free : Word → Word → (ℕ → Word) → (ℕ → Word)) (chunk : Word)
    (heap_of : Word → ℕ) where
  -- A copy at `ptr`, and the old object with the address of the copy.
  pub record Forwarded (m : ℕ → Word) (object ptr : Word) (index : ℕ) (after : ℕ → Word)
      : Type 0 where
    pub forwards : after object ≡ ptr + head_size
    pub contents_copied :
        (x : ℕ) → x < info_size (m (object - 16)) → after (ptr + head_size + x) ≡ m (object + x)
    pub bead_before : after (ptr + 8) ≡ magic_bead_head
    pub checked : gc_check_checksum popcount (after ptr) ≡ true
    pub sized : info_size (after ptr) ≡ info_size (m (object - 16))
    pub bead_behind : after (ptr + head_size + info_size (m (object - 16)) + 8) ≡ magic_bead_tail
    pub free_func_kept :
        after (ptr + head_size + info_size (m (object - 16)))
        ≡ m (object + info_size (m (object - 16)))

  -- If the new allocation lies apart from the old one, moving an object leaves its new address in the
  -- first word of the old object, and at the new address the same contents, with the same size and free
  -- function between a head and a tail with their beads and a right checksum.
  pub move_object-Forwarded :
      (m : ℕ → Word) (object ptr : Word) (index : ℕ)
      → FewBits popcount
      → 0 < info_size (m (object - 16))
      → 16 ≤ object
      → (ptr + 32 + info_size (m (object - 16)) ≤ object - 16)
        ⊎ (object + info_size (m (object - 16)) + 16 ≤ ptr)
      → Forwarded m object ptr index (move_object popcount free chunk heap_of m object ptr index)
  unfolding move_object gc_init_allocation
  move_object-Forwarded m object ptr index bits some_size high apart =
      let size = info_size (m (object - 16)) in
      let info =
        gc_compute_checksum popcount (pack_info size index (info_type (m (object - 16)))) in
      let f = m (object + size) in
      let a = four_words m ptr (ptr + head_size + size) info f in
      let w = four_words-AreWritten m ptr (ptr + head_size + size) info f (omega arith) in
      let small : size < 2 ^ 32 = omega arith in
      let head_same =
        elsewhere a object (ptr + head_size) size ptr (inl (omega arith))
          (beside ptr object size ptr apart (omega arith) (omega arith)) some_size in
      record {
        forwards = left_behind a object (ptr + head_size) size;
        contents_copied = λ x inside.
            copied_over a object (ptr + head_size) size x inside (new_apart ptr object size apart)
            ∙ untouched m ptr (ptr + head_size + size) info f (object + x) (omega arith)
                (old_apart ptr object size x apart inside);
        bead_before =
            elsewhere a object (ptr + head_size) size (ptr + 8) (inl (omega arith))
              (beside ptr object size (ptr + 8) apart (omega arith) (omega arith)) some_size
            ∙ w.head_there;
        checked =
            ap (gc_check_checksum popcount) (head_same ∙ w.info_there)
            ∙ gc_check_checksum-gc_compute_checksum popcount
                (pack_info size index (info_type (m (object - 16)))) bits;
        sized =
            ap info_size (head_same ∙ w.info_there)
            ∙ info_size-gc_compute_checksum popcount size index (info_type (m (object - 16))) small;
        bead_behind =
            elsewhere a object (ptr + head_size) size (ptr + head_size + size + 8)
              (inr (omega arith))
              (beside ptr object size (ptr + head_size + size + 8) apart (omega arith)
                (omega arith))
              some_size
            ∙ w.tail_there;
        free_func_kept =
            elsewhere a object (ptr + head_size) size (ptr + head_size + size) (inr (omega arith))
              (beside ptr object size (ptr + head_size + size) apart (omega arith) (omega arith))
              some_size
            ∙ w.free_there;
      }
