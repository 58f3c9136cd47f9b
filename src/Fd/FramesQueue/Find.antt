-- ===== src/Fd/FramesQueue/Find.antt =====
-- The search goes once round the table from `lookup_index`.
use tinyproto.Prelude.{
  ℕ, zero, suc, ◌+◌, ◌-◌, ◌≤◌, ◌<◌, ◌≡◌, ◌⊎◌, inl, inr, sym, ◌∙◌, ap, subst, Bool, true, false,
  Option, none, some, length, leb, if◌then◌else◌, Bool-cases, arith,
}
use tinyproto.Fd.FramesQueue.{
  FrameInfo, FdQueue, wanted_at, next_index, get_next_loop, queue_get_next, is_wanted,
}

-- The `i`-th slot of the search.
abbrev pub visited : FdQueue → ℕ → ℕ
visited queue i =
    if leb (length queue.frames) (queue.lookup_index + i)
    then queue.lookup_index + i - length queue.frames
    else queue.lookup_index + i

-- What a search from step `i` on gives: nothing, and then no slot is wanted, or the first wanted
-- slot.
pub data Finds (wanted : FrameInfo → Bool) (queue : FdQueue) (i : ℕ) : Option ℕ → Type 0 where
  nothing :
      ((j : ℕ) → i ≤ j → j < length queue.frames → wanted_at wanted queue (visited queue j) ≡ false)
      → Finds wanted queue i none
  first :
      (j : ℕ)
      → i ≤ j
      → j < length queue.frames
      → wanted_at wanted queue (visited queue j) ≡ true
      → ((k : ℕ) → i ≤ k → k < j → wanted_at wanted queue (visited queue k) ≡ false)
      → Finds wanted queue i (some (visited queue j))

next-visited :
    (queue : FdQueue) (i : ℕ)
    → queue.lookup_index < length queue.frames
    → i < length queue.frames
    → next_index queue (visited queue i) ≡ visited queue (i + 1)
unfolding next_index
next-visited queue i h l = ground arith

later : (i j : ℕ) → i ≤ j → (j ≡ i) ⊎ (i + 1 ≤ j)
later i j h = omega arith

module _ (wanted : FrameInfo → Bool) (queue : FdQueue) where
  -- No slot from step `i` to before step `n` is wanted.
  abbrev pub NoneWanted : ℕ → ℕ → Type 0
  NoneWanted i n = (j : ℕ) → i ≤ j → j < n → wanted_at wanted queue (visited queue j) ≡ false

  NoneWanted-before :
      (i n : ℕ)
      → wanted_at wanted queue (visited queue i) ≡ false
      → NoneWanted (i + 1) n
      → NoneWanted i n
  NoneWanted-before i n h rest j p q = elim (later i j p) [
    | inl e ↦ ap (λ k. wanted_at wanted queue (visited queue k)) e ∙ h
    | inr l ↦ rest j l q
  ]

  Finds-later :
      (i : ℕ) (found : Option ℕ)
      → wanted_at wanted queue (visited queue i) ≡ false
      → Finds wanted queue (i + 1) found
      → Finds wanted queue i found
  Finds-later i _ h (nothing apart) = nothing (NoneWanted-before i (length queue.frames) h apart)
  Finds-later i _ h (first j p q w apart) =
      first j (omega arith) q w (NoneWanted-before i j h apart)

  get_next_loop-Finds :
      (n i index : ℕ)
      → n + i ≡ length queue.frames
      → queue.lookup_index < length queue.frames
      → index ≡ visited queue i
      → Finds wanted queue i (get_next_loop n wanted queue index)
  unfolding get_next_loop
  get_next_loop-Finds zero i index e h at = nothing (λ j p q. absurd (omega arith))
  get_next_loop-Finds (suc n) i index e h at = elim (Bool-cases (wanted_at wanted queue index)) [
    | inl w ↦ rw w (
        subst (λ x. Finds wanted queue i (some x)) (sym at)
          (first i (omega arith) (omega arith) (ap (wanted_at wanted queue) (sym at) ∙ w)
            (λ j p q. absurd (omega arith))))
    | inr u ↦ rw u (
        Finds-later i _ (ap (wanted_at wanted queue) (sym at) ∙ u) (
          get_next_loop-Finds n (i + 1) (next_index queue index) (omega arith) h
            (ap (next_index queue) at ∙ next-visited queue i h (omega arith))))
  ]

-- The slot that the search looks at in step `step` of `index`.
step_of : FdQueue → ℕ → ℕ
step_of queue index =
    if leb queue.lookup_index index
    then index - queue.lookup_index
    else index + length queue.frames - queue.lookup_index

visited-step_of :
    (queue : FdQueue) (index : ℕ)
    → queue.lookup_index < length queue.frames
    → index < length queue.frames
    → (step_of queue index < length queue.frames) × (visited queue (step_of queue index) ≡ index)
unfolding step_of
visited-step_of queue index h l = ground arith

-- What `tiny_fd_queue_get_next` promises: NULL when no slot of the table is wanted, else a slot of
-- the table that is wanted.
pub data IsFound (wanted : FrameInfo → Bool) (queue : FdQueue) : Option ℕ → Type 0 where
  no_slot :
      ((index : ℕ) → index < length queue.frames → wanted_at wanted queue index ≡ false)
      → IsFound wanted queue none
  slot :
      (index : ℕ)
      → index < length queue.frames
      → wanted_at wanted queue index ≡ true
      → IsFound wanted queue (some index)

Finds-IsFound :
    (wanted : FrameInfo → Bool) (queue : FdQueue) (found : Option ℕ)
    → queue.lookup_index < length queue.frames
    → Finds wanted queue 0 found
    → IsFound wanted queue found
Finds-IsFound wanted queue _ h (nothing apart) = no_slot (λ index l.
    let (fits, same) = visited-step_of queue index h l in
    ap (wanted_at wanted queue) (sym same) ∙ apart (step_of queue index) (omega arith) fits)
Finds-IsFound wanted queue _ h (first j p q w apart) = slot (visited queue j) (ground arith) w

-- `tiny_fd_queue_get_next` goes once round the table from `lookup_index` and finds the first frame
-- of the types that are asked for, free or with the address, and, if it is an I-frame, with the
-- sequence number; it returns NULL only if the table has no such frame, wherever it starts.
pub get_next-Finds :
    (queue : FdQueue) (type address arg : ℕ)
    → queue.lookup_index < length queue.frames
    → let found = queue_get_next queue type address arg in
      Finds (is_wanted type address arg) queue 0 found
      × IsFound (is_wanted type address arg) queue found
unfolding queue_get_next
get_next-Finds queue type address arg h =
    let wanted = is_wanted type address arg in
    let finds =
      get_next_loop-Finds wanted queue (length queue.frames) 0 queue.lookup_index (omega arith) h
        (ground arith) in
    (finds, Finds-IsFound wanted queue _ h finds)
