-- ===== src/Fd/Peers/Address.antt =====
-- Address fields and peers correspond.
use tinyproto.Prelude.{
  ℕ, zero, suc, ◌+◌, ◌*◌, ◌/◌, ◌%◌, ◌<◌, ◌≡◌, ◌≢◌, ◌∙◌, ap, false, List, [], ◌∷◌, length, get_or,
  ==_refl, ==_ne, arith,
}
use tinyproto.Fd.Peers.{
  Station, is_abm, clear_cr, is_secondary_station, peer_to_address_field, find_peer,
  address_field_to_peer,
}

-- No two of the addresses are the same.
abbrev pub Apart : List ℕ → Type 0
Apart peers =
    (i j : ℕ) → i < length peers → j < length peers → i ≢ j → get_or peers i 0 ≢ get_or peers j 0

Apart-tail : (addr : ℕ) (peers : List ℕ) → Apart (addr ∷ peers) → Apart peers
Apart-tail addr peers h i j p q ne = h (suc i) (suc j) (omega arith) (omega arith) (omega arith)

find_peer-nth :
    (peers : List ℕ) (start i : ℕ)
    → Apart peers
    → i < length peers
    → find_peer peers start (get_or peers i 0) ≡ start + i
unfolding find_peer
find_peer-nth [] start i h l = absurd (omega arith)
find_peer-nth (addr ∷ peers) start zero h l = rw (==_refl addr) (omega arith)
find_peer-nth (addr ∷ peers) start (suc i) h l =
    let other : addr ≢ get_or peers i 0 = h 0 (suc i) (omega arith) (omega arith) (omega arith) in
    rw (==_ne addr (get_or peers i 0) other)
      (omega (arith, find_peer-nth peers (start + 1) i (Apart-tail addr peers h) (omega arith)))

-- A primary station that does not run in ABM mode and whose peers have different addresses, each
-- with the extension bit and without the command bit, finds a peer again from the address field
-- that it writes for it, with the command bit set or not.
pub address_field_to_peer-peer_to_address_field :
    (station : Station) (peer command : ℕ)
    → is_secondary_station station ≡ false
    → is_abm station.mode ≡ false
    → Apart station.peers
    → peer < length station.peers
    → get_or station.peers peer 0 % 4 ≡ 1
    → command < 2
    → address_field_to_peer station (peer_to_address_field station peer + 2 * command) ≡ peer
unfolding address_field_to_peer peer_to_address_field clear_cr
address_field_to_peer-peer_to_address_field station peer command primary mode apart inside form c =
    let addr = get_or station.peers peer 0 in
    let field = addr / 4 * 4 + addr % 2 + 2 * command in
    let back : field / 4 * 4 + field % 2 ≡ addr = omega (arith, form, c) in
    let found : find_peer station.peers 0 (field / 4 * 4 + field % 2) ≡ peer =
      ap (find_peer station.peers 0) back
      ∙ find_peer-nth station.peers 0 peer apart inside
      ∙ omega arith in
    ground (arith, found, back, form, primary, mode)
