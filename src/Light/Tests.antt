-- ===== src/Light/Tests.antt =====
-- Runs of src/proto/light/tiny_light.c on a concrete line.
use tinyproto.Prelude.{
  ℕ, suc, ◌+◌, ◌≡◌, ◌≢◌, ◌<◌, inl, refl, sym, ap, Bool, true, false, none, some, List, [], ◌∷◌,
  ◌++◌, arith, length, take, replicate,
}
use tinyproto.Crc.{crc_8, crc_off, crc_default, tiny_chksum, chksum_loop}
use tinyproto.Hdlc.Bytes.{success}
use tinyproto.Hdlc.Wire.{wire, stuff, fcs_bytes, le_bytes, fcs_size, fcs}
use tinyproto.Hdlc.Tx.{Tx, send_start, send_data, hdlc_ll_put_frame}
use tinyproto.Hdlc.Tx.Pending.{IsTx, pending}
use tinyproto.Hdlc.Rx.{Rx, read_start}
use tinyproto.User.{Io, moved, refused, Port, Outcome, amount}
use tinyproto.Light.{Light, LightInit, light_init, expired}
use tinyproto.Light.Send.{light_send}
use tinyproto.Light.Read.{light_read}
use tinyproto.Light.Sent.{IsWriter}
use tinyproto.Light.Sent.Blocks.{Sent, light_send-Sent}
use tinyproto.Light.Sent.Frame.{light_send-frame}
use tinyproto.Light.Heard.Blocks.{IsReader}
use tinyproto.Light.Heard.Frame.{light_read-frame}
use tinyproto.Light.Ready.{IsLight, light_init-IsLight}
use tinyproto.Light.RoundTrip.{frame_carried}

-- A line that is the list of the bytes on it, with a clock that stands still: a byte is taken at once, and
-- read at once when there is one.
abbrev next_byte : List ℕ → Io (List ℕ) × List ℕ
next_byte [] = (moved [], [])
next_byte (b ∷ line) = (moved (b ∷ []), line)

abbrev pipe : Port (List ℕ)
pipe = record {
  write_func = λ bytes line. (moved (length bytes), line ++ bytes);
  read_func = λ size line. next_byte line;
  millis = λ line. 0;
}

abbrev itself : List ℕ → List ℕ
itself line = line

abbrev never : List ℕ → ℕ
never line = 0

pipe-IsWriter : IsWriter pipe 1 itself never
pipe-IsWriter = record {
  takes = λ b w n e. refl;
  idles = λ b w e. absurd (cc (e));
  fails = λ b w code e. absurd (cc (e));
  bounded = λ w. omega arith;
}

pipe-IsReader : IsReader pipe 1 itself never
pipe-IsReader = record {
  gives = λ w b rest e. inl (ap (λ l. (next_byte l).0) e, ap (λ l. (next_byte l).1) e);
  bounded = λ w. omega arith;
}

pipe-in_time : (t u : List ℕ) → expired pipe (pipe.millis t) u ≡ false
unfolding expired
pipe-in_time t u = refl

-- A line that takes a byte at every second call. Its clock runs.
record SlowLine : Type 0 where
  line : List ℕ
  pauses : Bool
  now : ℕ

abbrev slow_write : List ℕ → SlowLine → Bool → Io ℕ × SlowLine
slow_write bytes w false =
    (moved (length bytes), record { line = w.line ++ bytes; pauses = true; now = w.now + 300 })
slow_write bytes w true = (moved 0, record { line = w.line; pauses = false; now = w.now + 300 })

abbrev slow : Port SlowLine
slow = record {
  write_func = λ bytes w. slow_write bytes w w.pauses;
  read_func = λ size w. (moved [], w);
  millis = λ w. w.now;
}

abbrev slow_patience : Bool → ℕ
slow_patience false = 0
slow_patience true = 1

slow_fails :
    (b : ℕ) (w : SlowLine) (code : ℕ) (pauses : Bool)
    → (slow_write (b ∷ []) w pauses).0 ≢ refused code
slow_fails b w code false e = absurd (cc (e))
slow_fails b w code true e = absurd (cc (e))

slow_takes :
    (b : ℕ) (w : SlowLine) (n : ℕ) (pauses : Bool)
    → (slow_write (b ∷ []) w pauses).0 ≡ moved (suc n)
    → (slow_write (b ∷ []) w pauses).1.line ≡ w.line ++ b ∷ []
slow_takes b w n false e = refl
slow_takes b w n true e = absurd (cc (e))

slow_idles :
    (b : ℕ) (w : SlowLine) (pauses : Bool)
    → (slow_write (b ∷ []) w pauses).0 ≡ moved 0
    → ((slow_write (b ∷ []) w pauses).1.line ≡ w.line)
      × (slow_patience (slow_write (b ∷ []) w pauses).1.pauses < slow_patience pauses)
slow_idles b w false e = absurd (cc (e))
slow_idles b w true e = (refl, omega arith)

slow_patience-lt : (pauses : Bool) → slow_patience pauses < 2
slow_patience-lt false = omega arith
slow_patience-lt true = omega arith

slow-IsWriter : IsWriter slow 2 (λ w. w.line) (λ w. slow_patience w.pauses)
slow-IsWriter = record {
  takes = λ b w n e. slow_takes b w n w.pauses e;
  idles = λ b w e. slow_idles b w w.pauses e;
  fails = λ b w code e. absurd (slow_fails b w code w.pauses e);
  bounded = λ w. slow_patience-lt w.pauses;
}

abbrev idle_tx : Tx
idle_tx = record {
  state = send_start;
  out_buffer = [];
  out_buffer_len = 0;
  origin_data = none;
  rest = [];
  len = 0;
  crc = 7;
  escape = false;
  on_frame_send = true;
  frames_sent = [];
}

abbrev frame : List ℕ
frame = 0x7e ∷ 1 ∷ []

-- The check sum of `frame` is 0x80; `image` has a stuffed byte.
abbrev image : List ℕ
image = 0x7e ∷ 0x7d ∷ 0x5e ∷ 1 ∷ 0x80 ∷ 0x7e ∷ []

image_lem : wire crc_8 frame ≡ image
unfolding wire stuff fcs_bytes le_bytes fcs_size fcs tiny_chksum chksum_loop
image_lem = refl

abbrev waiting_rx : Rx
waiting_rx = record {
  state = read_start;
  phys_mtu = 3;
  rx_buf = 9 ∷ 9 ∷ 9 ∷ 9 ∷ [];
  active_frame_buf = 0;
  ptr = 100;
  escape = true;
  on_frame_read = true;
  frames_read = [];
}

abbrev handle : Light
handle = record {
  hdlc = record { crc_type = crc_8; rx = waiting_rx; tx = idle_tx };
  rx_len = 5;
  rx_buf_at = 0;
}

handle-IsLight : IsLight handle
handle-IsLight = ground arith

abbrev buffer : List ℕ
buffer = replicate 4 0

-- An earlier frame of two bytes is being sent.
abbrev busy_handle : Light
busy_handle = record handle {
  hdlc = record handle.hdlc {
    tx = record idle_tx {
      state = send_data;
      origin_data = some (1 ∷ 2 ∷ []);
      rest = 2 ∷ [];
      len = 1;
      crc = 0;
    };
  };
}

busy_handle-IsTx : IsTx crc_8 busy_handle.hdlc.tx
busy_handle-IsTx = ground arith

abbrev slow_start : SlowLine
slow_start = record { line = []; pauses = true; now = 0 }

light_send-Sent_example :
    (result : Outcome) × (light' : Light) × (w' : SlowLine) × (light_send 9 2 slow busy_handle frame
        slow_start
      ≡ some (result, light', w'))
    × (light'.hdlc.crc_type ≡ crc_8)
    × Sent slow 2
        (λ w. w.line)
        (λ w. slow_patience w.pauses)
        slow-IsWriter
        0
        crc_8
        (pending crc_8 (hdlc_ll_put_frame busy_handle.hdlc.tx frame).1)
        slow_start
        result
        light'.hdlc
        w'
    × ((n : ℕ) → result ≡ amount n → n ≡ 2)
light_send-Sent_example =
    light_send-Sent slow 2 (λ w. w.line) (λ w. slow_patience w.pauses) slow-IsWriter 9 busy_handle
      frame slow_start busy_handle-IsTx
      (unfold hdlc_ll_put_frame stuff le_bytes fcs_size in omega arith)

pipe_works : (b : ℕ) (t : List ℕ) (code : ℕ) → (pipe.write_func (b ∷ []) t).0 ≢ refused code
pipe_works b t code e = absurd (cc (e))

light_send-frame_example :
    (light' : Light) × (w' : List ℕ) × (light_send 8 1 pipe handle frame (4 ∷ [])
      ≡ some (amount 2, light', w'))
    × (light'.hdlc.crc_type ≡ crc_8)
    × IsTx crc_8 light'.hdlc.tx
    × (light'.hdlc.tx.origin_data ≡ none)
    × (w' ≡ (4 ∷ []) ++ wire crc_8 frame)
light_send-frame_example =
    light_send-frame pipe 1 itself never pipe-IsWriter 8 handle frame (4 ∷ []) handle-IsLight.sender
      refl (omega arith) (rw image_lem (omega arith)) pipe_works (pipe-in_time (4 ∷ []))

light_read-frame_example :
    (light' : Light) × (w' : List ℕ) × (light_read 7 pipe handle 0 buffer (image ++ 0x7e ∷ [])
      ≡ some (amount 2, light', w'))
    × (take 2 light'.hdlc.rx.rx_buf ≡ frame)
    × (w' ≡ 0x7e ∷ [])
    × (light'.hdlc.crc_type ≡ crc_8)
    × (light'.hdlc.rx.on_frame_read ≡ true)
    × (light'.hdlc.rx.state ≡ read_start)
light_read-frame_example =
    light_read-frame pipe 1 itself never pipe-IsReader 7 handle 0 buffer (image ++ 0x7e ∷ []) frame
      (0x7e ∷ []) (ground arith) refl refl (omega arith) (unfold fcs_size in omega arith)
      (ap (λ l. l ++ 0x7e ∷ []) (sym image_lem)) (pipe-in_time (image ++ 0x7e ∷ []))
      (rw image_lem (omega arith))

frame_carried_example :
    (sent : Light) × (w' : List ℕ) × (read : Light) × (r : List ℕ) × (light_send 8 1 pipe handle
        frame []
      ≡ some (amount 2, sent, w'))
    × (light_read 7 pipe handle 0 buffer w' ≡ some (amount 2, read, r))
    × (take 2 read.hdlc.rx.rx_buf ≡ frame)
    × (r ≡ [])
frame_carried_example =
    frame_carried pipe pipe 1 1 itself itself never never itself 8 7 handle handle 0 frame buffer []
      pipe-IsWriter pipe-IsReader (λ t. refl) pipe_works (pipe-in_time []) pipe-in_time
      handle-IsLight handle-IsLight refl refl (omega arith) (unfold fcs_size in omega arith)
      (rw image_lem (omega arith)) (rw image_lem (omega arith))

-- The handle's buffer lies at an address that is not aligned.
abbrev given : LightInit
given = record {
  buf = 13;
  buffer = replicate 27 7;
  crc_type = crc_off;
  write_func = true;
  read_func = true;
}

light_init-IsLight_example :
    (light : Light) × (light_init 8 20 busy_handle given ≡ (success, some light))
    × IsLight light
    × (light.hdlc.crc_type ≡ crc_default)
light_init-IsLight_example =
    light_init-IsLight 8 20 busy_handle given refl refl (omega arith) (ground arith) (omega arith)
