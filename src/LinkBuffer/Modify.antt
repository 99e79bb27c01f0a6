-- ===== src/LinkBuffer/Modify.antt =====
-- `snow_linkbuffer_modify`: right inside one page, and out of bounds where a range ends inside a
-- later page.
use snow.LinkBuffer.{Byte, Page, linkbuffer_modify, modify_from, patch}
use snow.Base.{
  List, [], ap, arith, drop, false, fault, if◌then◌else◌, leb, length, length-append, ltb, ok, refl,
  subst, take, take_all, true, ℕ, ◌&&◌, ◌++◌, ◌+◌, ◌-◌, ◌<◌, ◌∷◌, ◌≡◌, ◌≤◌,
}
use snow.LinkBuffer.Contents.{bytes}

patch-ok :
    (p : Page) (at from k : ℕ) (new_data : List Byte)
    → from + k ≤ length new_data
    → at + k ≤ length p
    → patch p at new_data from k
      ≡ ok (take at p ++ (take k (drop from new_data) ++ drop (at + k) p))
unfolding patch
patch-ok p at from k new_data h l = ground arith

patch-fault :
    (p : Page) (at from k : ℕ) (new_data : List Byte)
    → length new_data < from + k
    → patch p at new_data from k ≡ fault
unfolding patch
patch-fault p at from k new_data h = ground arith

modify_done :
    (ps : List Page) (offset len bo copied : ℕ) (new_data : List Byte)
    → len ≤ copied
    → modify_from ps offset len bo copied new_data ≡ ok (copied, ps)
unfolding modify_from
modify_done [] offset len bo copied new_data h = refl
modify_done (p ∷ ps) offset len bo copied new_data h = ground arith

-- The bytes of a page with a part of it replaced.
abbrev pub replaced : Page → ℕ → List Byte → Page
replaced p at new_data = take at p ++ (new_data ++ drop (at + length new_data) p)

modify_here :
    (p : Page) (ps : List Page) (at bo : ℕ) (new_data : List Byte)
    → 0 < length new_data
    → at + length new_data ≤ length p
    → modify_from (p ∷ ps) (bo + at) (length new_data) bo 0 new_data
      ≡ ok (length new_data, replaced p at new_data ∷ ps)
unfolding modify_from
modify_here p ps at bo new_data some_bytes fits =
    let len = length new_data in
    let o : bo + at + 0 - bo ≡ at = omega arith in
    let more : ltb 0 len ≡ true = ground arith in
    let in_page : (leb bo (bo + at + 0) && ltb (bo + at + 0) (bo + length p)) ≡ true =
      ground arith in
    let all : ltb (length p - at) len ≡ false = ground arith in
    rw (o, more, in_page, all)
      (rw
        (
          patch-ok p at 0 len new_data (omega arith) fits,
          modify_done ps (bo + at) len (bo + length p) (0 + len) new_data (omega arith),
          take_all len new_data (omega arith),
        )
        (ap (λ k. ok (k, replaced p at new_data ∷ ps)) (omega arith)))

modify_at :
    (before : List Page) (p : Page) (ps : List Page) (at bo : ℕ) (new_data : List Byte)
    → 0 < length new_data
    → at + length new_data ≤ length p
    → modify_from
        (before ++ p ∷ ps)
        (bo + (length (bytes before) + at))
        (length new_data)
        bo
        0
        new_data
      ≡ ok (length new_data, before ++ replaced p at new_data ∷ ps)
unfolding modify_from
modify_at [] p ps at bo new_data some_bytes fits =
    let e : bo + at ≡ bo + (0 + at) = omega arith in
    subst
      (λ o.
        modify_from (p ∷ ps) o (length new_data) bo 0 new_data
        ≡ ok (length new_data, replaced p at new_data ∷ ps))
      e (modify_here p ps at bo new_data some_bytes fits)
modify_at (q ∷ before) p ps at bo new_data some_bytes fits =
    let len = length new_data in
    let n : ℕ = bo + (length (bytes (q ∷ before)) + at) in
    let more : ltb 0 len ≡ true = ground arith in
    let past : (leb bo (n + 0) && ltb (n + 0) (bo + length q)) ≡ false =
      ground (arith, length-append q (bytes before)) in
    let moved : n ≡ bo + length q + (length (bytes before) + at) =
      omega (arith, length-append q (bytes before)) in
    rw (more, past)
      (rw moved (rw (modify_at before p ps at (bo + length q) new_data some_bytes fits)))

-- Modifying a range that is not empty and lies inside one page replaces it by the new bytes, counts
-- all of them, and changes no other byte.
pub linkbuffer_modify-replaced :
    (n : ℕ) (before : List Page) (p : Page) (ps : List Page) (at : ℕ) (new_data : List Byte)
    → 0 < length new_data
    → at + length new_data ≤ length p
    → linkbuffer_modify
        (record { page_size = n; pages = before ++ p ∷ ps })
        (length (bytes before) + at)
        (length new_data)
        new_data
      ≡ ok
          (length new_data, record { page_size = n; pages = before ++ replaced p at new_data ∷ ps })
unfolding linkbuffer_modify
linkbuffer_modify-replaced n before p ps at new_data some_bytes fits =
    let e : 0 + (length (bytes before) + at) ≡ length (bytes before) + at = omega arith in
    rw (
      subst
        (λ o.
          modify_from (before ++ p ∷ ps) o (length new_data) 0 0 new_data
          ≡ ok (length new_data, before ++ replaced p at new_data ∷ ps))
        e (modify_at before p ps at 0 new_data some_bytes fits))

-- A page that is longer than what is left to write: the copy reads past the new bytes.
modify_overrun :
    (q : Page) (ps : List Page) (offset bo copied : ℕ) (new_data : List Byte)
    → offset + copied ≡ bo
    → 0 < copied
    → copied < length new_data
    → length new_data < copied + length q
    → modify_from (q ∷ ps) offset (length new_data) bo copied new_data ≡ fault
unfolding modify_from
modify_overrun q ps offset bo copied new_data e started more over =
    let len = length new_data in
    let o : offset + copied - bo ≡ 0 = omega arith in
    let more' : ltb copied len ≡ true = ground arith in
    let in_page : (leb bo (offset + copied) && ltb (offset + copied) (bo + length q)) ≡ true =
      ground arith in
    let k : ℕ = if ltb (length q - 0) len then length q - 0 else len in
    rw (o, more', in_page) (rw (patch-fault q 0 copied k new_data (ground arith)))

modify_two :
    (p q : Page) (ps : List Page) (at bo : ℕ) (new_data : List Byte)
    → at < length p
    → length p < at + length new_data
    → at + length new_data < length p + length q
    → modify_from (p ∷ q ∷ ps) (bo + at) (length new_data) bo 0 new_data ≡ fault
unfolding modify_from
modify_two p q ps at bo new_data inside crosses ends =
    let len = length new_data in
    let r : ℕ = length p - at in
    let o : bo + at + 0 - bo ≡ at = omega arith in
    let more : ltb 0 len ≡ true = ground arith in
    let in_page : (leb bo (bo + at + 0) && ltb (bo + at + 0) (bo + length p)) ≡ true =
      ground arith in
    let part : ltb r len ≡ true = ground arith in
    let over =
      modify_overrun q ps (bo + at) (bo + length p) (0 + r) new_data (omega arith) (omega arith)
        (omega arith) (omega arith) in
    rw (modify_from, o, more, in_page, part)
      (rw (patch-ok p at 0 r new_data (omega arith) (omega arith), over))

modify_behind :
    (before : List Page) (p q : Page) (ps : List Page) (at bo : ℕ) (new_data : List Byte)
    → at < length p
    → length p < at + length new_data
    → at + length new_data < length p + length q
    → modify_from
        (before ++ p ∷ q ∷ ps)
        (bo + (length (bytes before) + at))
        (length new_data)
        bo
        0
        new_data
      ≡ fault
unfolding modify_from
modify_behind [] p q ps at bo new_data inside crosses ends =
    let e : bo + at ≡ bo + (0 + at) = omega arith in
    subst (λ o. modify_from (p ∷ q ∷ ps) o (length new_data) bo 0 new_data ≡ fault) e
      (modify_two p q ps at bo new_data inside crosses ends)
modify_behind (b ∷ before) p q ps at bo new_data inside crosses ends =
    let len = length new_data in
    let n : ℕ = bo + (length (bytes (b ∷ before)) + at) in
    let more : ltb 0 len ≡ true = ground arith in
    let past : (leb bo (n + 0) && ltb (n + 0) (bo + length b)) ≡ false =
      ground (arith, length-append b (bytes before)) in
    let moved : n ≡ bo + length b + (length (bytes before) + at) =
      omega (arith, length-append b (bytes before)) in
    rw (more, past)
      (rw moved (rw (modify_behind before p q ps at (bo + length b) new_data inside crosses ends)))

-- Modifying a range that starts in one page and ends before the end of the next accesses memory out of
-- bounds.
pub linkbuffer_modify-fault :
    (n : ℕ) (before : List Page) (p q : Page) (ps : List Page) (at : ℕ) (new_data : List Byte)
    → at < length p
    → length p < at + length new_data
    → at + length new_data < length p + length q
    → linkbuffer_modify
        (record { page_size = n; pages = before ++ p ∷ q ∷ ps })
        (length (bytes before) + at)
        (length new_data)
        new_data
      ≡ fault
unfolding linkbuffer_modify
linkbuffer_modify-fault n before p q ps at new_data inside crosses ends =
    let e : 0 + (length (bytes before) + at) ≡ length (bytes before) + at = omega arith in
    rw (
      subst (λ o. modify_from (before ++ p ∷ q ∷ ps) o (length new_data) 0 0 new_data ≡ fault) e
        (modify_behind before p q ps at 0 new_data inside crosses ends))
