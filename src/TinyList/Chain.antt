-- ===== src/TinyList/Chain.antt =====
-- The elements of a list of src/hal/tiny_list.c in order, and what adding and removing one makes of them.
use tinyproto.Prelude.{
  ℕ, ◌≡◌, ◌≢◌, refl, sym, ◌∙◌, ap, true, false, Option, none, some, List, [], ◌∷◌, ◌++◌, ==_ne,
  ==_refl, subst,
}
use tinyproto.TinyList.{
  Element, Memory, TinyList, put, set_prev, set_next, list_add, list_remove, is_at, bypass,
}

-- The elements from `cur` on are `xs`, linked both ways, and the one before them is `prev`.
abbrev pub Chain : Memory → Option ℕ → Option ℕ → List ℕ → Type 0
Chain m prev cur [] = cur ≡ none
Chain m prev cur (x ∷ xs) = (cur ≡ some x) × ((m x).pprev ≡ prev) × Chain m (some x) (m x).pnext xs

abbrev pub NotIn : ℕ → List ℕ → Type 0
NotIn a [] = Unit {0}
NotIn a (x ∷ xs) = (x ≢ a) × NotIn a xs

abbrev pub Distinct : List ℕ → Type 0
Distinct [] = Unit {0}
Distinct (x ∷ xs) = NotIn x xs × Distinct xs

put_other : (m : Memory) (a : ℕ) (e : Element) (x : ℕ) → x ≢ a → put m a e x ≡ m x
put_other m a e x h = rw (==_ne x a h) refl

put_same : (m : Memory) (a : ℕ) (e : Element) → put m a e a ≡ e
put_same m a e = rw (==_refl a) refl

-- An element that is not in the chain may change.
Chain-put :
    (m : Memory) (a : ℕ) (e : Element) (prev cur : Option ℕ) (xs : List ℕ)
    → NotIn a xs
    → Chain m prev cur xs
    → Chain (put m a e) prev cur xs
Chain-put m a e prev cur [] h c = c
Chain-put m a e prev cur (x ∷ xs) (ne, h) (at, before, rest) =
    let same = put_other m a e x ne in
    (
      at,
      ap (λ t. t.pprev) same ∙ before,
      subst (λ t. Chain (put m a e) (some x) t.pnext xs) (sym same)
          (Chain-put m a e (some x) (m x).pnext xs h rest),
    )

-- The chain gets another element before it.
Chain-set_prev :
    (m : Memory) (prev new cur : Option ℕ) (xs : List ℕ)
    → Distinct xs
    → Chain m prev cur xs
    → Chain (set_prev cur new m) new cur xs
Chain-set_prev m prev new none [] d c = c
Chain-set_prev m prev new (some a) [] d c = absurd (cc (c))
Chain-set_prev m prev new none (x ∷ xs) d (at, before, rest) = absurd (cc (at))
Chain-set_prev m prev new (some a) (x ∷ xs) (apart, d) (at, before, rest) =
    let here : a ≡ x = cc (at) in
    let changed = record (m a) { pprev = new } in
    let same = ap (λ t. put m a changed t) (sym here) ∙ put_same m a changed in
    (
      at,
      ap (λ t. t.pprev) same,
      subst (λ t. Chain (put m a changed) (some x) t.pnext xs) (sym same)
          (Chain-put m a changed (some x) (m a).pnext xs (subst (λ t. NotIn t xs) (sym here) apart)
            (subst (λ t. Chain m (some x) (m t).pnext xs) (sym here) rest)),
    )

set_prev_other : (p value : Option ℕ) (m : Memory) (x : ℕ) → p ≢ some x → set_prev p value m x ≡ m x
set_prev_other none value m x h = refl
set_prev_other (some a) value m x h =
    put_other m a (record (m a) { pprev = value }) x (λ e. h (ap some (sym e)))

set_next_other : (p value : Option ℕ) (m : Memory) (x : ℕ) → p ≢ some x → set_next p value m x ≡ m x
set_next_other none value m x h = refl
set_next_other (some a) value m x h =
    put_other m a (record (m a) { pnext = value }) x (λ e. h (ap some (sym e)))

head_apart :
    (m : Memory) (prev cur : Option ℕ) (xs : List ℕ) (x : ℕ)
    → Chain m prev cur xs
    → NotIn x xs
    → cur ≢ some x
head_apart m prev cur [] x c h e = absurd (cc (c, e))
head_apart m prev cur (a ∷ xs) x (at, back, rest) (ne, h) e = ne (cc (at, e))

-- The elements of a list.
abbrev pub Holds : TinyList → List ℕ → Type 0
Holds list xs = Chain list.memory none list.head xs × Distinct xs

-- `tiny_list_add` of an element that is not in the list puts it at the front.
pub list_add-Holds :
    (list : TinyList) (element : ℕ) (xs : List ℕ)
    → Holds list xs
    → NotIn element xs
    → Holds (list_add element list).1 (element ∷ xs)
unfolding list_add
list_add-Holds list element xs (c, d) apart =
    let new : Element = record { pnext = list.head; pprev = none } in
    let m = put list.memory element new in
    let c' = Chain-put list.memory element new none list.head xs apart c in
    let same =
      set_prev_other list.head (some element) m element
        (head_apart m none list.head xs element c' apart)
      ∙ put_same list.memory element new in
    (
      (
        refl,
        ap (λ t. t.pprev) same,
        subst (λ t. Chain (set_prev list.head (some element) m) (some element) t.pnext xs)
            (sym same) (Chain-set_prev m none (some element) list.head xs d c'),
      ),
      (apart, d),
    )

-- The neighbours of an element of a chain are in the chain.
next_apart :
    (m : Memory) (prev cur : Option ℕ) (before : List ℕ) (element x : ℕ) (after : List ℕ)
    → Chain m prev cur (before ++ element ∷ after)
    → NotIn x after
    → (m element).pnext ≢ some x
next_apart m prev cur [] element x after (at, back, rest) h =
    head_apart m (some element) (m element).pnext after x rest h
next_apart m prev cur (a ∷ before) element x after (at, back, rest) h =
    next_apart m (some a) (m a).pnext before element x after rest h

prev_apart :
    (m : Memory) (prev cur : Option ℕ) (before : List ℕ) (element x : ℕ) (after : List ℕ)
    → Chain m prev cur (before ++ element ∷ after)
    → NotIn x before
    → prev ≢ some x
    → (m element).pprev ≢ some x
prev_apart m prev cur [] element x after (at, back, rest) h ne = λ e. ne (sym back ∙ e)
prev_apart m prev cur (a ∷ before) element x after (at, back, rest) (apart, h) ne =
    prev_apart m (some a) (m a).pnext before element x after rest h (λ e. apart (cc (e)))

bypass_other :
    (m : Memory) (element x : ℕ)
    → (m element).pprev ≢ some element
    → (m element).pprev ≢ some x
    → (m element).pnext ≢ some x
    → bypass element m x ≡ m x
bypass_other m element x self not_prev not_next =
    let linked = set_next (m element).pprev (m element).pnext m in
    let same = set_next_other (m element).pprev (m element).pnext m element self in
    set_prev_other (linked element).pnext (linked element).pprev linked x
      (λ e. not_next (ap (λ t. t.pnext) (sym same) ∙ e))
    ∙ set_next_other (m element).pprev (m element).pnext m x not_prev

NotIn-first : (x : ℕ) (xs ys : List ℕ) → NotIn x (xs ++ ys) → NotIn x xs
NotIn-first x [] ys h = tt
NotIn-first x (a ∷ xs) ys (ne, h) = (ne, NotIn-first x xs ys h)

-- Without an element, the others are still different, and it is none of them.
NotIn-without :
    (x : ℕ) (before : List ℕ) (element : ℕ) (after : List ℕ)
    → NotIn x (before ++ element ∷ after)
    → (element ≢ x) × NotIn x (before ++ after) × NotIn x before × NotIn x after
NotIn-without x [] element after (ne, h) = (ne, h, tt, h)
NotIn-without x (a ∷ before) element after (ne, h) =
    let (apart, both, left, right) = NotIn-without x before element after h in
    (apart, (ne, both), (ne, left), right)

Distinct-without :
    (before : List ℕ) (element : ℕ) (after : List ℕ)
    → Distinct (before ++ element ∷ after)
    → Distinct (before ++ after) × NotIn element (before ++ after)
Distinct-without [] element after (apart, d) = (d, apart)
Distinct-without (a ∷ before) element after (apart, d) =
    let (ne, both, _, _) = NotIn-without a before element after apart in
    let (d', apart') = Distinct-without before element after d in
    ((both, d'), ((λ e. ne (sym e)), apart'))

-- The element before is linked to the one after.
Chain-linked :
    (m : Memory) (prev cur : Option ℕ) (p element : ℕ) (after : List ℕ)
    → Chain m prev cur (p ∷ element ∷ after)
    → Distinct (p ∷ element ∷ after)
    → Chain (bypass element m) prev cur (p ∷ after)
Chain-linked m prev cur p element after (at, back, (_, back', rest)) ((ne, apart), (apart', d)) =
    let n = (m element).pnext in
    let joined : Element = record (m p) { pnext = n } in
    let l = put m p joined in
    let same = put_other m p joined element ne in
    let bypassed : bypass element m ≡ set_prev n (some p) l =
      ap
        (λ t.
          set_prev (set_next t n m element).pnext (set_next t n m element).pprev (set_next t n m))
        back'
      ∙ ap (λ t. set_prev t.pnext t.pprev l) same
      ∙ ap (λ t. set_prev n t l) back' in
    let tail = Chain-put m p joined (some element) n after apart rest in
    let here =
      set_prev_other n (some p) l p (head_apart l (some element) n after p tail apart)
      ∙ put_same m p joined in
    subst (λ t. Chain t prev cur (p ∷ after)) (sym bypassed)
      (
        at,
        ap (λ t. t.pprev) here ∙ back,
        subst (λ t. Chain (set_prev n (some p) l) (some p) t.pnext after) (sym here)
            (Chain-set_prev l (some element) (some p) n after d tail),
      )

Chain-bypass :
    (m : Memory) (prev cur : Option ℕ) (p : ℕ) (before : List ℕ) (element : ℕ) (after : List ℕ)
    → Chain m prev cur (p ∷ before ++ element ∷ after)
    → Distinct (p ∷ before ++ element ∷ after)
    → Chain (bypass element m) prev cur (p ∷ before ++ after)
Chain-bypass m prev cur p [] element after c d = Chain-linked m prev cur p element after c d
Chain-bypass m prev cur p (q ∷ before) element after (at, back, rest) (apart, d) =
    let (ne, both, left, right) = NotIn-without p (q ∷ before) element after apart in
    let (_, apart') = Distinct-without (q ∷ before) element after d in
    let same =
      bypass_other m element p
        (prev_apart m (some p) (m p).pnext (q ∷ before) element element after rest
          (NotIn-first element (q ∷ before) after apart') (λ e. ne (sym (cc (e)))))
        (prev_apart m (some q) (m q).pnext before element p after rest.2 left.1
          (λ e. left.0 (cc (e))))
        (next_apart m (some p) (m p).pnext (q ∷ before) element p after rest right) in
    (
      at,
      ap (λ t. t.pprev) same ∙ back,
      subst (λ t. Chain (bypass element m) (some p) t.pnext (q ∷ before ++ after)) (sym same)
          (Chain-bypass m (some p) (m p).pnext q before element after rest d),
    )

removed_later :
    (list : TinyList) (element : ℕ)
    → is_at list.head element ≡ false
    → list_remove element list ≡ record list {
      memory = put (bypass element list.memory) element (record { pnext = none; pprev = none });
    }
unfolding list_remove
removed_later list element later = rw (list_remove, later) refl

-- `tiny_list_remove` of an element of the list: the others stay, in their order, linked both ways.
pub list_remove-Holds :
    (list : TinyList) (before : List ℕ) (element : ℕ) (after : List ℕ)
    → Holds list (before ++ element ∷ after)
    → Holds (list_remove element list) (before ++ after)
unfolding list_remove
list_remove-Holds list [] element after ((at, back, rest), (apart, d)) =
    let next = (list.memory element).pnext in
    let alone : Element = record { pnext = none; pprev = none } in
    let first : is_at list.head element ≡ true = ap (λ h. is_at h element) at ∙ ==_refl element in
    rw (list_remove, first)
      (
        Chain-put (set_prev next none list.memory) element alone none next after apart
            (Chain-set_prev list.memory (some element) none next after d rest),
        d,
      )
list_remove-Holds list (a ∷ before) element after ((at, c, cs), d) =
    let alone : Element = record { pnext = none; pprev = none } in
    let (d', apart) = Distinct-without (a ∷ before) element after d in
    let later : is_at list.head element ≡ false =
      ap (λ h. is_at h element) at ∙ ==_ne a element apart.0 in
    subst (λ l. Holds l (a ∷ before ++ after)) (sym (removed_later list element later))
      (
        Chain-put (bypass element list.memory) element alone none list.head (a ∷ before ++ after)
            apart (Chain-bypass list.memory none list.head a before element after (at, c, cs) d),
        d',
      )
