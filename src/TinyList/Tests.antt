-- ===== src/TinyList/Tests.antt =====
-- Runs of src/hal/tiny_list.c on concrete lists.
use tinyproto.Prelude.{ℕ, ◌+◌, ◌≡◌, Bool, none, some, [], ◌∷◌, ◌==◌, arith, not}
use tinyproto.TinyList.{Element, Memory, TinyList, put, list_add, list_remove, list_enumerate}
use tinyproto.TinyList.Chain.{Holds, list_add-Holds, list_remove-Holds}
use tinyproto.TinyList.Enumerate.{visit_all, list_enumerate-visit_all}

-- The elements at 7, 3 and 9, in this order.
abbrev links : ℕ → ℕ → Element
links a b = record { pnext = some a; pprev = some b }

abbrev memory : Memory
memory =
    put
      (put
        (put (λ a. record { pnext = none; pprev = none }) 7
          (record { pnext = some 3; pprev = none }))
        3 (links 9 7))
      9 (record { pnext = none; pprev = some 3 })

abbrev three : TinyList
three = record { head = some 7; memory = memory; uid = 65535 }

three-Holds : Holds three (7 ∷ 3 ∷ 9 ∷ [])
three-Holds = ground arith

list_add-Holds_example : Holds (list_add 4 three).1 (4 ∷ 7 ∷ 3 ∷ 9 ∷ [])
list_add-Holds_example = list_add-Holds three 4 (7 ∷ 3 ∷ 9 ∷ []) three-Holds (ground arith)

list_remove-Holds_example : Holds (list_remove 3 three) (7 ∷ 9 ∷ [])
list_remove-Holds_example = list_remove-Holds three (7 ∷ []) 3 (9 ∷ []) three-Holds

-- A sum that stops at 3.
abbrev visit : ℕ → ℕ → Bool × ℕ
visit a s = (not (a == 3), s + a)

list_enumerate-visit_all_example :
    list_enumerate 4 memory (some 7) visit 0 ≡ some (visit_all (7 ∷ 3 ∷ 9 ∷ []) visit 0)
list_enumerate-visit_all_example =
    list_enumerate-visit_all 4 memory none (some 7) (7 ∷ 3 ∷ 9 ∷ []) visit 0 three-Holds.0
      (omega arith)
