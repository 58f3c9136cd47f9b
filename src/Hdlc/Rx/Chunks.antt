-- ===== src/Hdlc/Rx/Chunks.antt =====
-- Input that arrives in chunks.
use tinyproto.Prelude.{
  ℕ, zero, suc, ◌+◌, ◌<◌, ◌≡◌, refl, ◌∙◌, false, Option, some, List, [], ◌∷◌, ◌++◌, arith, length,
  take, drop, ◌>>=◌, length-drop,
}
use tinyproto.Crc.{CrcType}
use tinyproto.Hdlc.Rx.{Rx, at_end, on_rx_loop, tiny_fd_on_rx_data}
use tinyproto.Hdlc.Rx.Listen.{Listen, hear, hear_all, listen, IsRx}
use tinyproto.Hdlc.Rx.Refine.{Hears}
use tinyproto.Hdlc.Rx.Run.{Runs, run_rx-Runs}

hear_all-drop :
    (c : CrcType) (mtu : ℕ) (s : Listen) (n : ℕ) (bytes : List ℕ)
    → hear_all c mtu (hear_all c mtu s (take n bytes)) (drop n bytes) ≡ hear_all c mtu s bytes
unfolding hear_all
hear_all-drop c mtu s zero bytes = refl
hear_all-drop c mtu s (suc n) [] = refl
hear_all-drop c mtu s (suc n) (b ∷ bytes) = hear_all-drop c mtu (hear c mtu s b) n bytes

on_rx_trans :
    {c : CrcType} {rx mid rx' : Rx} (input : List ℕ) (n m : ℕ)
    → m ≡ n
    → Runs c rx input n mid
    → Hears c mid (hear_all c mid.phys_mtu (listen c mid) (drop m input)) rx'
    → Hears c rx (hear_all c rx.phys_mtu (listen c rx) input) rx'
on_rx_trans {c} {rx} input n m e r h =
    ground (arith, hear_all-drop c rx.phys_mtu (listen c rx) n input)

on_rx_loop-Hears :
    (fuel : ℕ) (c : CrcType) (rx : Rx) (input : List ℕ)
    → IsRx rx
    → at_end rx.state ≡ false
    → length input < fuel
    → (rx' : Rx) × (on_rx_loop fuel c rx input ≡ some rx')
      × (at_end rx'.state ≡ false)
      × Hears c rx (hear_all c rx.phys_mtu (listen c rx) input) rx'
unfolding on_rx_loop hear_all
on_rx_loop-Hears zero c rx input v s h = absurd (omega arith)
on_rx_loop-Hears (suc fuel) c rx [] v s h = (rx, refl, s, ground arith)
on_rx_loop-Hears (suc fuel) c rx (b ∷ rest) v s h =
    let input = b ∷ rest in
    let (n, r, e, count, runs) = run_rx-Runs c rx input v in
    let some_used : 0 < n = runs.progress s (omega arith) in
    let left = drop r.result input in
    let (rx', e', s', hs) =
      on_rx_loop-Hears fuel c r.rx left runs.step.valid runs.settled
        (omega (arith, length-drop r.result input, runs.within)) in
    (rx', rw (e, ◌>>=◌) e', s', on_rx_trans input n r.result count runs hs)

-- A receiver is between calls: its window is inside the buffer and no closing flag is left over.
pub record IsReady (rx : Rx) : Type 0 where
  pub valid : IsRx rx
  pub settled : at_end rx.state ≡ false

pub on_rx_data-Hears :
    (c : CrcType) (rx : Rx) (input : List ℕ)
    → IsReady rx
    → (rx' : Rx) × (tiny_fd_on_rx_data c rx input ≡ some rx')
      × IsReady rx'
      × Hears c rx (hear_all c rx.phys_mtu (listen c rx) input) rx'
unfolding tiny_fd_on_rx_data
on_rx_data-Hears c rx input v =
    let (rx', e, s, h) =
      on_rx_loop-Hears (length input + 1) c rx input v.valid v.settled (omega arith) in
    (rx', e, record { valid = h.valid; settled = s }, h)

-- Calls of `tiny_fd_on_rx_data` with one chunk of input after the other.
pub receive : CrcType → Rx → List (List ℕ) → Option Rx
receive c rx [] = some rx
receive c rx (chunk ∷ chunks) = do rx' ← tiny_fd_on_rx_data c rx chunk; receive c rx' chunks

abbrev pub join : List (List ℕ) → List ℕ
join [] = []
join (chunk ∷ chunks) = chunk ++ join chunks

pub hear_all-append :
    (c : CrcType) (mtu : ℕ) (s : Listen) (xs ys : List ℕ)
    → hear_all c mtu s (xs ++ ys) ≡ hear_all c mtu (hear_all c mtu s xs) ys
unfolding hear_all
hear_all-append c mtu s [] ys = refl
hear_all-append c mtu s (b ∷ xs) ys = hear_all-append c mtu (hear c mtu s b) xs ys

-- However the input is cut into chunks, the receiver returns from every call, writes only inside
-- its buffer, and ends where the machine on single bytes ends on the whole input.
pub receive_hears :
    (c : CrcType) (rx : Rx) (chunks : List (List ℕ))
    → IsReady rx
    → (rx' : Rx) × (receive c rx chunks ≡ some rx')
      × IsReady rx'
      × (rx'.phys_mtu ≡ rx.phys_mtu)
      × (listen c rx' ≡ hear_all c rx.phys_mtu (listen c rx) (join chunks))
unfolding receive hear_all
receive_hears c rx [] v = (rx, refl, v, refl, refl)
receive_hears c rx (chunk ∷ chunks) v =
    let (mid, e, ready, h) = on_rx_data-Hears c rx chunk v in
    let (rx', e', ready', same, hears) = receive_hears c mid chunks ready in
    (
      rx',
      rw (e, ◌>>=◌) e',
      ready',
      same ∙ h.same_mtu,
      ground (
        arith,
        hears,
        h.same_mtu,
        h.hears,
        hear_all-append c rx.phys_mtu (listen c rx) chunk (join chunks),
      ),
    )
