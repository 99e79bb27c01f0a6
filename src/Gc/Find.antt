-- ===== src/Gc/Find.antt =====
-- The heap of an address, with the bounds test of snow/gc.c in front.
use snow.Base.{
  Bool-cases, List, [], ap, arith, false, inl, inr, none, refl, sym, ◌++◌, ◌∙◌, ◌∷◌, ◌≡◌, ◌≤◌, ◌⊎◌,
}
use snow.Gc.{ChunkInfo, Gc, gc_find_heap, gc_maybe_contains, or_search}
use snow.GcHeap.{GcHeap, gc_heap_contains, gc_heap_list_find_heap}
use snow.Value.{Word, null}

-- The chunk of the heap, if it has one, lies in the bounds.
abbrev pub Within : ChunkInfo → GcHeap → Type 0
Within c h = (h.start ≡ null) ⊎ ((c.lower_bound ≤ h.start) × (h.end ≤ c.upper_bound))

abbrev pub AllWithin : ChunkInfo → List GcHeap → Type 0
AllWithin c [] = Unit
AllWithin c (h ∷ hs) = Within c h × AllWithin c hs

abbrev pub all_heaps : Gc → List GcHeap
all_heaps gc = gc.nurseries ++ (gc.adults ++ (gc.biggies ++ (gc.unkillables ++ gc.graveyard)))

find_heap-append :
    (hs gs : List GcHeap) (root : Word)
    → gc_heap_list_find_heap (hs ++ gs) root
      ≡ or_search (gc_heap_list_find_heap hs root) (gc_heap_list_find_heap gs root)
unfolding gc_heap_list_find_heap
find_heap-append [] gs root = refl
find_heap-append (h ∷ hs) gs root = elim (Bool-cases (gc_heap_contains h root)) [
  | inl e ↦ rw e refl
  | inr e ↦ rw e (find_heap-append hs gs root)
]

not_contained :
    (c : ChunkInfo) (h : GcHeap) (root : Word)
    → Within c h
    → gc_maybe_contains c root ≡ false
    → gc_heap_contains h root ≡ false
unfolding gc_heap_contains
not_contained c h root (inl e) out = rw e refl
not_contained c h root (inr (low, high)) out = ground (arith, low, high, out)

none_found :
    (c : ChunkInfo) (hs : List GcHeap) (root : Word)
    → AllWithin c hs
    → gc_maybe_contains c root ≡ false
    → gc_heap_list_find_heap hs root ≡ none
unfolding gc_heap_list_find_heap
none_found c [] root w out = refl
none_found c (h ∷ hs) root (w, ws) out =
    rw (not_contained c h root w out) (none_found c hs root ws out)

all_searched :
    (gc : Gc) (root : Word)
    → gc_heap_list_find_heap (all_heaps gc) root
      ≡ or_search (gc_heap_list_find_heap gc.nurseries root) (
          or_search (gc_heap_list_find_heap gc.adults root) (
            or_search (gc_heap_list_find_heap gc.biggies root) (
              or_search
                (gc_heap_list_find_heap gc.unkillables root)
                (gc_heap_list_find_heap gc.graveyard root))))
all_searched gc root =
    find_heap-append gc.nurseries (gc.adults ++ (gc.biggies ++ (gc.unkillables ++ gc.graveyard)))
      root
    ∙ ap (or_search (gc_heap_list_find_heap gc.nurseries root)) (
        find_heap-append gc.adults (gc.biggies ++ (gc.unkillables ++ gc.graveyard)) root
        ∙ ap (or_search (gc_heap_list_find_heap gc.adults root)) (
            find_heap-append gc.biggies (gc.unkillables ++ gc.graveyard) root
            ∙ ap (or_search (gc_heap_list_find_heap gc.biggies root))
                (find_heap-append gc.unkillables gc.graveyard root)))

-- If every chunk lies in the bounds, the bounds test changes nothing: the search gives the first of all
-- heaps, nurseries first, that contains the address.
pub gc_find_heap-all_heaps :
    (gc : Gc) (root : Word)
    → AllWithin gc.chunks (all_heaps gc)
    → gc_find_heap gc root ≡ gc_heap_list_find_heap (all_heaps gc) root
unfolding gc_find_heap
gc_find_heap-all_heaps gc root w = elim (Bool-cases (gc_maybe_contains gc.chunks root)) [
  | inl e ↦ rw e (sym (all_searched gc root))
  | inr e ↦ rw e (sym (none_found gc.chunks (all_heaps gc) root w e))
]
