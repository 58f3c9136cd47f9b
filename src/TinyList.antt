-- ===== src/TinyList.antt =====
-- src/hal/tiny_list.c: a doubly linked list whose elements lie in the memory of its users. An address is a
-- number, the NULL pointer `none`. The mutex is not modelled (one thread runs).
pub mod Chain
pub mod Enumerate
mod Tests
use tinyproto.Prelude.{
  ℕ, zero, suc, ◌+◌, ◌%◌, ◌^◌, Bool, true, false, Option, none, some, List, [], ◌∷◌, ◌++◌, ◌==◌,
  if◌then◌else◌,
}

pub record Element : Type 0 where
  pub pnext : Option ℕ
  pub pprev : Option ℕ

abbrev pub Memory : Type 0
Memory = ℕ → Element

-- `*head`, the elements, and the static `s_uid`.
pub record TinyList : Type 0 where
  pub head : Option ℕ
  pub memory : Memory
  pub uid : ℕ

abbrev pub put : Memory → ℕ → Element → Memory
put memory at element a = if a == at then element else memory a

-- `if ( p ) p->pprev = value` and the same for `pnext`.
abbrev pub set_prev : Option ℕ → Option ℕ → Memory → Memory
set_prev none value memory = memory
set_prev (some at) value memory = put memory at (record (memory at) { pprev = value })

abbrev pub set_next : Option ℕ → Option ℕ → Memory → Memory
set_next none value memory = memory
set_next (some at) value memory = put memory at (record (memory at) { pnext = value })

unfoldable pub list_add : ℕ → TinyList → ℕ × TinyList
list_add element list = (
  list.uid % 2 ^ 12,
  record {
    head = some element;
    memory =
        set_prev list.head (some element)
          (put list.memory element (record { pnext = list.head; pprev = none }));
    uid = (list.uid + 1) % 2 ^ 16;
  },
)

abbrev pub is_at : Option ℕ → ℕ → Bool
is_at none element = false
is_at (some a) element = a == element

-- The links of the neighbours of an element that is not the first.
abbrev pub bypass : ℕ → Memory → Memory
bypass element memory =
    let linked = set_next (memory element).pprev (memory element).pnext memory in
    set_prev (linked element).pnext (linked element).pprev linked

unfoldable pub list_remove : ℕ → TinyList → TinyList
list_remove element list =
    let alone : Element = record { pnext = none; pprev = none } in
    if is_at list.head element
    then (let next = (list.memory element).pnext in
        record list { head = next; memory = put (set_prev next none list.memory) element alone })
    else record list { memory = put (bypass element list.memory) element alone }

unfoldable pub list_clear : TinyList → TinyList
list_clear list = record list { head = none }

-- The calls of `enumerate_func`, whose result says whether to go on; `visit` also threads the user's state.
unfoldable pub list_enumerate {ℓ} :
    {S : Type ℓ} → ℕ → Memory → Option ℕ → (ℕ → S → Bool × S) → S → Option S
list_enumerate zero memory head visit s = none
list_enumerate (suc fuel) memory none visit s = some s
list_enumerate (suc fuel) memory (some a) visit s =
    let (goes_on, s') = visit a s in
    let rest = list_enumerate fuel memory (memory a).pnext visit s' in
    if goes_on then rest else some s'
