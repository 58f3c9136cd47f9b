-- ===== src/Fd/Peers/Turn.antt =====
-- The turn goes round the peers of a primary station.
use tinyproto.Prelude.{
  ℕ, zero, suc, ◌+◌, ◌-◌, ◌≤◌, ◌<◌, ◌≡◌, ◌⊎◌, inl, inr, refl, sym, ◌∙◌, ap, true, false, not, some,
  length, leb, ◌==◌, if◌then◌else◌, ◌>>=◌, Bool-cases, arith,
}
use tinyproto.Fd.Peers.{Station, following, is_registered, switch_loop, switch_to_next_peer}

-- The peer whose turn is `i` turns after that of the present one.
abbrev pub turn : Station → ℕ → ℕ
turn station i =
    if leb (length station.peers) (station.next_peer + i)
    then station.next_peer + i - length station.peers
    else station.next_peer + i

following-turn :
    (station : Station) (i : ℕ)
    → station.next_peer < length station.peers
    → i < length station.peers
    → following station (turn station i) ≡ turn station (i + 1)
unfolding following
following-turn station i h l = ground arith

-- No peer with a turn after the `i`-th and before the `n`-th is registered.
abbrev pub Skipped : Station → ℕ → ℕ → Type 0
Skipped station i n = (j : ℕ) → i < j → j < n → is_registered station (turn station j) ≡ false

-- The peer that has the turn next, after `i` turns: the first that is registered, or after the last
-- turn the present one if none is.
pub data Next (station : Station) (i : ℕ) : ℕ → Type 0 where
  next_turn :
      (j : ℕ)
      → i < j
      → j ≤ length station.peers
      → (is_registered station (turn station j) ≡ true) ⊎ (j ≡ length station.peers)
      → Skipped station i j
      → Next station i (turn station j)

later : (i j : ℕ) → i < j → (j ≡ i + 1) ⊎ (i + 1 < j)
later i j h = omega arith

Next-later :
    (station : Station) (i peer : ℕ)
    → is_registered station (turn station (i + 1)) ≡ false
    → Next station (i + 1) peer
    → Next station i peer
Next-later station i _ h (next_turn j p q r skipped) = next_turn j (omega arith) q r (λ k a b.
    elim (later i k a) [
      | inl e ↦ ap (λ t. is_registered station (turn station t)) e ∙ h
      | inr l ↦ skipped k l b
    ])

switch_loop-Next :
    (fuel : ℕ) (station : Station) (i : ℕ)
    → fuel + i ≡ length station.peers
    → 0 < fuel
    → station.next_peer < length station.peers
    → (next : ℕ) × (switch_loop fuel station station.next_peer (turn station i) ≡ some next)
      × Next station i next
unfolding switch_loop
switch_loop-Next zero station i e pos h = absurd (omega arith)
switch_loop-Next (suc fuel) station i e pos h =
    let t = turn station (i + 1) in
    let step : following station (turn station i) ≡ t = following-turn station i h (omega arith) in
    elim (Bool-cases (is_registered station t)) [
      | inl r ↦ (
        t,
        rw (step, r) refl,
        next_turn (i + 1) (omega arith) (omega arith) (inl r) (λ j a b. absurd (omega arith)),
      )
      | inr u ↦ elim (Bool-cases (station.next_peer == t)) [
        | inl same ↦ (
          t,
          rw (step, u, same) refl,
          next_turn (i + 1) (omega arith) (omega arith) (inr (ground arith))
              (λ j a b. absurd (omega arith)),
        )
        | inr other ↦
            let (next, runs, n) =
              switch_loop-Next fuel station (i + 1) (omega arith) (ground arith) h in
            (next, rw (step, u, other) runs, Next-later station i next u n)
      ]
    ]

start_turn :
    (station : Station)
    → station.next_peer < length station.peers
    → turn station 0 ≡ station.next_peer
start_turn station h = ground arith

Next-lt :
    (station : Station) (i peer : ℕ)
    → station.next_peer < length station.peers
    → Next station i peer
    → peer < length station.peers
Next-lt station i _ h (next_turn j p q r skipped) = ground arith

-- `__switch_to_next_peer` of a station whose turn is at a peer of the table returns. The turn goes to
-- the first registered peer after the present one, round the table, and comes back to the present
-- one if no other is registered; it stays in the table, and the result says whether it has moved.
pub switch_to_next_peer-Next :
    (station : Station)
    → station.next_peer < length station.peers
    → (next : ℕ) × (switch_to_next_peer station
        ≡ some (not (station.next_peer == next), record station { next_peer = next }))
      × Next station 0 next
      × (next < length station.peers)
unfolding switch_to_next_peer
switch_to_next_peer-Next station h =
    let (next, runs, n) =
      switch_loop-Next (length station.peers) station 0 (omega arith) (omega arith) h in
    let start = start_turn station h in
    let loop =
      ap (switch_loop (length station.peers) station station.next_peer) (sym start) ∙ runs in
    (next, rw (loop, ◌>>=◌) refl, n, Next-lt station 0 next h n)
