-- ===== src/Fd/Peers.antt =====
-- src/proto/fd/tiny_fd_peers.c and tiny_fd_peers_int.h: addresses of stations and the turn of the
-- peers. In an address field of 8 bits, bit 0 is HDLC_E_BIT, bit 1 HDLC_CR_BIT, the rest the address.
pub mod Address
pub mod Turn
use tinyproto.Prelude.{
  ℕ, zero, suc, ◌+◌, ◌*◌, ◌/◌, ◌%◌, Bool, true, false, not, ◌||◌, Option, none, some, List, [], ◌∷◌,
  length, get_or, leb, ◌==◌, if◌then◌else◌, ◌>>=◌,
}

-- TINY_FD_MODE_ABM, TINY_FD_MODE_NRM and TINY_FD_MODE_ARM.
pub data Mode : Type 0 where
  mode_abm mode_nrm mode_arm : Mode

abbrev pub is_abm : Mode → Bool
is_abm mode_abm = true
is_abm _ = false

-- The fields of tiny_fd_data_t that the functions on peers use; `peers` has the field `addr` of each
-- peer.
pub record Station : Type 0 where
  pub mode : Mode
  pub addr : ℕ
  pub peers : List ℕ
  pub next_peer : ℕ

-- HDLC_INVALID_PEER_INDEX.
abbrev pub invalid_peer : ℕ
invalid_peer = 0xff

-- `address & ~HDLC_CR_BIT`.
unfoldable pub clear_cr : ℕ → ℕ
clear_cr address = address / 4 * 4 + address % 2

unfoldable pub is_primary_address : ℕ → Bool
is_primary_address address = clear_cr address == 1

unfoldable pub is_primary_station : Station → Bool
is_primary_station station = is_primary_address station.addr

unfoldable pub is_secondary_station : Station → Bool
is_secondary_station station = not (is_primary_station station)

-- A peer outside of the table is not asked for.
unfoldable pub peer_to_address_field : Station → ℕ → ℕ
peer_to_address_field station peer = clear_cr (get_or station.peers peer 0)

-- The loop of `__address_field_to_peer` over the peers from `peer` on.
unfoldable pub find_peer : List ℕ → ℕ → ℕ → ℕ
find_peer [] peer address = invalid_peer
find_peer (addr ∷ peers) peer address =
    let more = find_peer peers (peer + 1) address in if addr == address then peer else more

unfoldable pub address_field_to_peer : Station → ℕ → ℕ
address_field_to_peer station address =
    let cleared = clear_cr address in
    if not (cleared % 2 == 1)
    then invalid_peer
    else (if is_secondary_station station || is_abm station.mode
        then (if cleared == station.addr then 0 else invalid_peer)
        else find_peer station.peers 0 cleared)

-- `++handle->next_peer`, and back to 0 behind the last peer.
unfoldable pub following : Station → ℕ → ℕ
following station peer = if leb (length station.peers) (peer + 1) then 0 else peer + 1

-- A slot of the table without a peer has HDLC_INVALID_PEER_INDEX as its address.
unfoldable pub is_registered : Station → ℕ → Bool
is_registered station peer = not (get_or station.peers peer 0 == invalid_peer)

-- The loop of `__switch_to_next_peer`; the peer that it ends at. `none` means that the fuel ran out.
pub switch_loop : ℕ → Station → ℕ → ℕ → Option ℕ
switch_loop zero station start_peer peer = none
switch_loop (suc fuel) station start_peer peer =
    let next = following station peer in
    let more = switch_loop fuel station start_peer next in
    if is_registered station next
    then some next
    else (if start_peer == next then some next else more)

-- Whether the turn has gone to another peer. Every peer has its turn once at most.
pub switch_to_next_peer : Station → Option (Bool × Station)
switch_to_next_peer station = do
  next ← switch_loop (length station.peers) station station.next_peer station.next_peer
  some (not (station.next_peer == next), record station { next_peer = next })
