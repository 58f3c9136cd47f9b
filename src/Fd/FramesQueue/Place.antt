-- ===== src/Fd/FramesQueue/Place.antt =====
-- Where `tiny_fd_queue_init` of src/proto/fd/tiny_fd_frames_queue.c puts the slots of a table.
use tinyproto.Prelude.{
  ℕ, zero, suc, ◌+◌, ◌*◌, ◌≤◌, ◌<◌, ◌≡◌, refl, ap, some, List, ◌∷◌, length, get_elem?, arith,
}
use tinyproto.Fd.FramesQueue.{place_slots}

-- The slots begin at or behind `from`, have `step` bytes each, end at or before `end`, and none begins
-- before the one in front of it ends.
pub record ArePlaced (from step end : ℕ) (slots : List ℕ) : Type 0 where
  pub inside : (i ptr : ℕ) → get_elem? slots i ≡ some ptr → (from ≤ ptr) × (ptr + step ≤ end)
  pub apart :
      (i j p q : ℕ) → i < j → get_elem? slots i ≡ some p → get_elem? slots j ≡ some q → p + step ≤ q

-- `ptr` moves on by `step` for each slot.
pub place_slots-end : (n step ptr : ℕ) → (place_slots n step ptr).1 ≡ ptr + step * n
unfolding place_slots
place_slots-end zero step ptr = omega arith
place_slots-end (suc n) step ptr = grind (arith, place_slots-end n step (ptr + step))

pub length-place_slots : (n step ptr : ℕ) → length (place_slots n step ptr).0 ≡ n
unfolding place_slots
length-place_slots zero step ptr = refl
length-place_slots (suc n) step ptr = ap suc (length-place_slots n step (ptr + step))

pub place_slots-ArePlaced :
    (n step ptr : ℕ) → ArePlaced ptr step (place_slots n step ptr).1 (place_slots n step ptr).0
unfolding place_slots
place_slots-ArePlaced zero step ptr = record {
  inside = λ i p e. absurd (cc);
  apart = λ i j p q l e f. absurd (cc);
}
place_slots-ArePlaced (suc n) step ptr =
    let more = place_slots-ArePlaced n step (ptr + step) in
    record { inside = inside_first n step ptr more; apart = apart_first n step ptr more }
  where
    inside_first :
        (n step ptr : ℕ)
        → ArePlaced
            (ptr + step)
            step
            (place_slots n step (ptr + step)).1
            (place_slots n step (ptr + step)).0
        → (i p : ℕ) → get_elem? (ptr ∷ (place_slots n step (ptr + step)).0) i ≡ some p
        → (ptr ≤ p) × (p + step ≤ (place_slots n step (ptr + step)).1)
    inside_first n step ptr more zero p e = grind (arith, e, place_slots-end n step (ptr + step))
    inside_first n step ptr more (suc i) p e = omega (arith, more.inside i p e)

    apart_first :
        (n step ptr : ℕ)
        → ArePlaced
            (ptr + step)
            step
            (place_slots n step (ptr + step)).1
            (place_slots n step (ptr + step)).0
        → (i j p q : ℕ) → i < j
        → get_elem? (ptr ∷ (place_slots n step (ptr + step)).0) i ≡ some p
        → get_elem? (ptr ∷ (place_slots n step (ptr + step)).0) j ≡ some q
        → p + step ≤ q
    apart_first n step ptr more i zero p q l e f = absurd (omega arith)
    apart_first n step ptr more zero (suc j) p q l e f = ground (arith, e, more.inside j q f)
    apart_first n step ptr more (suc i) (suc j) p q l e f = more.apart i j p q (omega arith) e f
