-- ===== src/Fd/FramesQueue/Slots.antt =====
-- The table keeps its shape, and an operation on one slot leaves the others alone.
use tinyproto.Prelude.{
  ℕ, zero, suc, ◌≤◌, ◌<◌, ◌≡◌, ◌≢◌, ◌⊎◌, inl, inr, refl, sym, ◌∙◌, ap, true, some, List, [], ◌∷◌,
  length, get_elem?, Bool-cases, ◌==◌, Option-cases, arith, length-set, get_elem?-set_self,
  get_elem?-set_ne,
}
use tinyproto.Fd.FramesQueue.{FrameInfo, FdQueue, update, is_free}

-- A slot has memory for `mtu` bytes, and if it is not free says that it holds no more.
abbrev pub SlotFits : ℕ → FrameInfo → Type 0
SlotFits mtu frame =
    (length frame.payload ≡ mtu) × ((is_free frame.type ≡ true) ⊎ (frame.len ≤ mtu))

-- The search starts in the table, every slot fits, and packets are not empty.
pub record IsFdQueue (queue : FdQueue) : Type 0 where
  pub starts : queue.lookup_index < length queue.frames
  pub holds :
      (index : ℕ) (frame : FrameInfo)
      → get_elem? queue.frames index ≡ some frame
      → SlotFits queue.mtu frame
  pub sized : 0 < queue.mtu

module _ {ℓ} {A : Type ℓ} where
  get_elem?-lt : (xs : List A) (i : ℕ) → i < length xs → (x : A) × (get_elem? xs i ≡ some x)
  get_elem?-lt [] i h = absurd (omega arith)
  get_elem?-lt (x ∷ xs) zero h = (x, refl)
  get_elem?-lt (x ∷ xs) (suc i) h = get_elem?-lt xs i (omega arith)

  pub get_elem?-below : (xs : List A) (i : ℕ) (x : A) → get_elem? xs i ≡ some x → i < length xs
  get_elem?-below [] i x e = absurd (cc)
  get_elem?-below (y ∷ xs) zero x e = omega arith
  get_elem?-below (y ∷ xs) (suc i) x e = omega (arith, get_elem?-below xs i x e)

pub update-lookup :
    (queue : FdQueue) (index : ℕ) (f : FrameInfo → FrameInfo)
    → (update queue index f).lookup_index ≡ queue.lookup_index
update-lookup queue index f = elim (Option-cases (get_elem? queue.frames index)) [
  | inl e ↦ rw (update, e) refl
  | inr (frame, e) ↦ rw (update, e) refl
]

-- Only the slot at `index` differs: it held `frame` and holds `f frame`.
pub record Changes (queue queue' : FdQueue) (index : ℕ) (f : FrameInfo → FrameInfo) : Type 0 where
  pub before : FrameInfo
  pub held : get_elem? queue.frames index ≡ some before
  pub holds : get_elem? queue'.frames index ≡ some (f before)
  pub others : (i : ℕ) → index ≢ i → get_elem? queue'.frames i ≡ get_elem? queue.frames i
  pub same_size : length queue'.frames ≡ length queue.frames
  pub same_mtu : queue'.mtu ≡ queue.mtu

pub update-Changes :
    (queue : FdQueue) (index : ℕ) (f : FrameInfo → FrameInfo)
    → index < length queue.frames
    → Changes queue (update queue index f) index f
update-Changes queue index f h =
    let (frame, e) = get_elem?-lt queue.frames index h in
    rw (update, e)
      (record {
        before = frame;
        held = e;
        holds = get_elem?-set_self queue.frames index (f frame) h;
        others = λ i ne. get_elem?-set_ne queue.frames index i (f frame) ne;
        same_size = length-set queue.frames index (f frame);
        same_mtu = refl;
      })

-- A change that keeps the slot's memory keeps the table in shape.
pub Changes-IsFdQueue :
    {queue queue' : FdQueue} {index : ℕ} {f : FrameInfo → FrameInfo}
    → Changes queue queue' index f
    → ((frame : FrameInfo) → SlotFits queue.mtu frame → SlotFits queue.mtu (f frame))
    → IsFdQueue queue
    → queue'.lookup_index < length queue'.frames
    → IsFdQueue queue'
Changes-IsFdQueue {queue} {queue'} {index} {f} c keeps v starts = record {
  starts = starts;
  holds = holds;
  sized = omega (arith, c.same_mtu, v.sized);
}
  where
    holds :
        (i : ℕ) (frame : FrameInfo)
        → get_elem? queue'.frames i ≡ some frame
        → SlotFits queue'.mtu frame
    holds i frame e = elim (Bool-cases (index == i)) [
      | inl same ↦
          let at : index ≡ i = ground arith in
          let this : some frame ≡ some (f c.before) =
            sym e ∙ ap (get_elem? queue'.frames) (sym at) ∙ c.holds in
          ground (arith, this, c.same_mtu, keeps c.before (v.holds index c.before c.held))
      | inr other ↦
          ground (arith, c.same_mtu, v.holds i frame (sym (c.others i (ground arith)) ∙ e))
    ]
