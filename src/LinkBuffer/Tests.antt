-- ===== src/LinkBuffer/Tests.antt =====
-- Tests of the byte buffer.
use snow.Base.{Returns, [], arith, fault, refl, ◌∷◌, ◌≡◌}
use snow.LinkBuffer.{LinkBuffer, linkbuffer_modify, push_data}
use snow.LinkBuffer.Contents.{Appended, IsValid, push_data-Appended}
use snow.LinkBuffer.Modify.{linkbuffer_modify-fault}

abbrev two_pages : LinkBuffer
two_pages = record { page_size = 4; pages = (1 ∷ 2 ∷ 3 ∷ 4 ∷ []) ∷ (5 ∷ 6 ∷ 7 ∷ []) ∷ [] }

two_pages-IsValid : IsValid two_pages
two_pages-IsValid = record { has_room = omega arith; chain = (refl, (omega arith, omega arith)) }

push_data-Appended_example :
    Returns (Appended two_pages 0 (8 ∷ 9 ∷ [])) (push_data two_pages (8 ∷ 9 ∷ []))
push_data-Appended_example = push_data-Appended (8 ∷ 9 ∷ []) two_pages-IsValid

linkbuffer_modify-fault_example : linkbuffer_modify two_pages 3 2 (8 ∷ 9 ∷ []) ≡ fault
linkbuffer_modify-fault_example =
    linkbuffer_modify-fault 4 [] (1 ∷ 2 ∷ 3 ∷ 4 ∷ []) (5 ∷ 6 ∷ 7 ∷ []) [] 3 (8 ∷ 9 ∷ [])
      (omega arith) (omega arith) (omega arith)
