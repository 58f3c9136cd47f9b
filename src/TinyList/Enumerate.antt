-- ===== src/TinyList/Enumerate.antt =====
-- `tiny_list_enumerate` of src/hal/tiny_list.c against a list of addresses.
use tinyproto.Prelude.{
  ℕ, zero, suc, ◌<◌, ◌≡◌, inl, inr, refl, Bool, Bool-cases, Option, some, List, [], ◌∷◌, arith,
  length, if◌then◌else◌,
}
use tinyproto.TinyList.{Memory, list_enumerate}
use tinyproto.TinyList.Chain.{Chain}

-- The function for the elements in order, up to the first for which it says to stop.
unfoldable pub visit_all {ℓ} : {S : Type ℓ} → List ℕ → (ℕ → S → Bool × S) → S → S
visit_all [] visit s = s
visit_all (x ∷ xs) visit s =
    let (goes_on, s') = visit x s in
    let rest = visit_all xs visit s' in if goes_on then rest else s'

-- `tiny_list_enumerate` calls the function for the elements of the list, each once and in order, up to the
-- first for which it returns 0, with a round for each element and one more; it returns.
pub list_enumerate-visit_all {ℓ} :
    {S : Type ℓ} (fuel : ℕ) (m : Memory) (prev cur : Option ℕ) (xs : List ℕ)
    (visit : ℕ → S → Bool × S) (s : S)
    → Chain m prev cur xs
    → length xs < fuel
    → list_enumerate fuel m cur visit s ≡ some (visit_all xs visit s)
unfolding list_enumerate visit_all
list_enumerate-visit_all zero m prev cur xs visit s c h = absurd (omega arith)
list_enumerate-visit_all (suc fuel) m prev cur [] visit s c h = rw c refl
list_enumerate-visit_all (suc fuel) m prev cur (x ∷ xs) visit s (at, back, rest) h =
    elim (Bool-cases (visit x s).0) [
      | inl goes_on ↦
          rw (list_enumerate, at, goes_on)
            (list_enumerate-visit_all fuel m (some x) (m x).pnext xs visit (visit x s).1 rest
              (omega (arith, h)))
      | inr stops ↦ rw (list_enumerate, at, stops) refl
    ]
