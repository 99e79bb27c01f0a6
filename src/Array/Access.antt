-- ===== src/Array/Access.antt =====
-- `array_get` refines reading a sequence.
use snow.Base.{
  Bool-cases, List, ap, arith, dec_lt, get_or, get_or-beyond, inl, inr, length, ltb_ℤ, negsuc, ok,
  pos, suc, sym, ℕ, ℤ, ◌+ℤ◌, ◌-◌, ◌<◌, ◌∙◌, ◌≡◌, ◌≤◌,
}
use snow.Value.{Word}
use snow.Memory.{read_cell}
use snow.Memory.Prefix.{read_cell-cells}
use snow.Array.{Array, array_get, from_end}
use snow.Array.Holds.{Holds, element}

pub from_end-pos : (size n : ℕ) → from_end size (pos n) ≡ pos n
unfolding from_end
from_end-pos size n = ground arith

pub from_end-inside : (size n : ℕ) → n < size → from_end size (negsuc n) ≡ pos (size - suc n)
unfolding from_end ◌+ℤ◌
from_end-inside size n h = ground arith

pub from_end-outside : (size n : ℕ) → size ≤ n → from_end size (negsuc n) ≡ negsuc (n - size)
unfolding from_end ◌+ℤ◌
from_end-outside size n h = ground arith

-- A read of a known element.
pub read_held :
    {a : Array} {xs : List Word} (i : ℕ)
    → Holds a xs
    → i < length xs
    → read_cell a.data_cells i ≡ ok (get_or xs i 0)
read_held {xs} i h lt = rw h.layout (read_cell-cells xs h.rest i lt)

-- On an array that holds a sequence `array_get` returns the element, from the end for a negative
-- index, and NULL outside the bounds; it never reads memory that was not written.
pub array_get-element :
    {a : Array} {xs : List Word} (idx : ℤ) → Holds a xs → array_get a idx ≡ ok (element xs idx)
unfolding array_get
array_get-element {a} {xs} (pos n) h = elim (Bool-cases (ltb_ℤ (pos n) (pos a.size))) [
  | inl inside ↦ rw (inside, from_end-pos) (read_held n h (ground (arith, h.size_eq)))
  | inr outside ↦ rw outside (ap ok (sym (get_or-beyond xs n 0 (ground (arith, h.size_eq)))))
]
array_get-element {a} {xs} (negsuc n) h = elim (dec_lt n (length xs)) [
  | yes inside ↦
      let e = from_end-inside a.size n (omega (arith, h.size_eq)) in
      let r = read_held (length xs - suc n) h (omega arith) in ground (arith, e, r, h.size_eq)
  | no outside ↦ rw (from_end-outside a.size n (omega (arith, h.size_eq))) (ground arith)
]

pub from_end-held :
    {a : Array} {xs : List Word} (n : ℕ)
    → Holds a xs
    → n < length xs
    → from_end a.size (negsuc n) ≡ pos (length xs - suc n)
from_end-held {a} n h lt =
    from_end-inside a.size n (omega (arith, h.size_eq)) ∙ ap (λ k. pos (k - suc n)) h.size_eq
