-- ===== src/Lib.antt =====
-- tinyproto: a full-duplex protocol for microcontrollers on top of HDLC framing. This library models
-- the C code of the framing layer and of the two protocols above it, the full-duplex and the light one.
--
-- How the program works. The user puts a frame to the low level HDLC layer
-- (src/proto/hdlc/low_level/hdlc.c: `hdlc_ll_put_frame`) and asks it for bytes to write to the line
-- (`hdlc_ll_run_tx`), with a buffer of any size: the sender is a state machine that stops and goes
-- on at any byte. It frames the payload by flags, appends a check sum (src/proto/crc/tiny_crc.c) and
-- escapes flags and escape characters. Bytes from the line go to the receiver (`hdlc_ll_run_rx`,
-- called in a loop by `tiny_fd_on_rx_data` of src/proto/fd/tiny_fd.c), in chunks of any size; it
-- stores the frame in a window of `rx_buf`, tests the check sum and calls `on_frame_read`. The
-- full-duplex protocol on top keeps frames that wait to be sent in two tables, one for I-frames and one
-- for S- and U-frames, and numbers its I-frames modulo 8. It has a connection with each peer:
-- `on_frame_read` of tiny_fd.c hands a frame to the handlers of tiny_fd_on_rx_int.h, which answer by
-- frames in the tables and move the connection to its next state, and `tiny_fd_get_tx_data` takes the
-- next frame out of the tables to the HDLC level, and looks at the time-outs when there is none. The
-- light protocol sends and reads single frames through the HDLC level, byte by byte, and has neither
-- connections nor acknowledgements.
--
-- Files:
-- - Crc and its children: tiny_crc.c. The tables are copied; words are native numbers with shifts as
--   / and % by powers of 2.
-- - Hdlc/Bytes: the constants of hdlc.c and the error codes of src/hal/tiny_types.h.
-- - Hdlc/Tx: the sender. `Tx` is the `tx` part of hdlc_ll_data_t (hdlc_int.h). Tx/Pending has the
--   bytes that a state still owes to the line and the invariant, Tx/Steps one round of the loop,
--   Tx/Stream the whole loop, Tx/Reported and Tx/Close what the user is told, Tx/Put a frame that is
--   put at any time.
-- - Hdlc/Wire: the wire image of a frame, written without the state machine (RFC 1662).
-- - Hdlc/Rx: the receiver. `Rx` is the `rx` part with the memory `rx_buf`; `none` is a write outside
--   of it. Rx/Listen is the abstract receiver, a machine on single bytes; Rx/Refine, Rx/Rounds,
--   Rx/Run and Rx/Chunks show that the code refines it.
-- - Hdlc/CheckSum, Hdlc/Hearing, Hdlc/Recovery, Hdlc/RoundTrip: what the receiver makes of wire
--   images.
-- - Hdlc/Init: `hdlc_ll_init`, `hdlc_ll_reset` and the buffer sizes. The size of hdlc_ll_data_t and
--   the alignment are parameters, since they depend on the platform.
-- - Fd/FramesQueue: src/proto/fd/tiny_fd_frames_queue.c, the table of frames that wait; a pointer to a
--   slot is its index. Find has the search, Slots the shape of the table, Allocate and Reset the
--   operations, Place where its slots lie in memory. Fd/ServiceQueue:
--   tiny_fd_service_queue.c, the second table.
-- - Fd/IQueueControl: src/proto/fd/tiny_fd_i_queue_control.c, the sequence numbers of the I-frames of
--   a peer. Window is the abstract window with unbounded counters, Confirm and Outside the
--   acknowledgements, Events every run that the protocol allows.
-- - Fd/Peers: src/proto/fd/tiny_fd_peers.c and tiny_fd_peers_int.h. Address has the address fields, Turn
--   the order in which a primary station serves its peers.
-- - Fd/Handle: the handle and its peers (tiny_fd_int.h), and `Link`, one peer with what its handlers use
--   of the handle. Fd/Control: the control field (tiny_fd_defines_int.h).
-- - Fd/Connection, Fd/IdleTimeout, Fd/NextFrame, Fd/OnFrame, Fd/TxData, Fd/Api, Fd/Init: the parts of
--   src/proto/fd/tiny_fd.c: the switches of a connection, the time-outs, the choice of the next frame,
--   the callbacks of the HDLC level with `tiny_fd_on_rx_data`, `tiny_fd_get_tx_data`, the calls of the
--   user, and the set-up in the caller's memory. Fd/Confirm: tiny_fd_tx.c. Fd/OnRx: the handlers of
--   tiny_fd_on_rx_int.h. Fd/Polling: `tiny_fd_run_rx` and `tiny_fd_run_tx`, with functions of the user.
-- - User: the types of the functions that the user gives, for Fd/Polling and Light.
-- - Fd/Invariant and its children: the invariant of the handle, kept by every call. Tables is about the
--   tables, Steps the handlers of a peer, Handles, Transmit, Rounds and Calls the functions on the
--   handle, Runs every sequence of calls.
-- - Fd/Delivery: what the user gets of a stream of I-frames. Fd/Diagram: the states of a connection as a
--   table, which the handler of U-frames follows.
-- - Light: src/proto/light/tiny_light.c, blocking send and read, with the set-up. The functions of the user
--   and the clock are the parameter `Port`, the state of what is outside its type argument. Light/Send and
--   Light/Read have the two loops, Light/Sent and Light/Heard what they do, one byte (the module itself),
--   any run (Blocks) and a whole frame (Frame); Light/Ready is about the set-up and Light/RoundTrip about
--   two handles. Hdlc/Rx/Byte and Hdlc/Bytewise are the receiver's theorems for single bytes.
-- - TinyList: src/hal/tiny_list.c, a doubly linked list in the memory of its users, with nothing to do with
--   the protocols. Chain says which elements a memory holds, and what adding and removing one does.
-- - Hdlc/Tests, Fd/Tests, Fd/HandleTests, Fd/Polling/Tests, TinyList/Tests and Light/Tests: the theorems at
--   concrete inputs.
--
-- Fuel: a round of the sender's loop writes a byte, or changes the state without one (at most twice
-- in a row), or ends it, so that 4 rounds per byte of the buffer and 4 more are enough; a round of
-- the receiver's loop uses a byte of the input except for the last. The loop of `tiny_fd_get_tx_data`
-- has 2 rounds per byte of the buffer and 6 more: a round writes a byte, or uses up the one repeat that
-- the source allows, or passes the wait once. The loop of `tiny_fd_send_to` has a round for each byte
-- of the data. All of these are proved: `none` is never the result of a state that satisfies the
-- invariant. The loops of tiny_fd_i_queue_control.c run at most 8 rounds, since there are 8 sequence
-- numbers, and have 9; the turn goes round the peers once at most. Where one of these three runs out of
-- fuel the handle is marked by its field `hung`, which nothing clears: the call that ran it returns
-- `none` then, and the invariant says that it is not set.
-- The loops of tiny_light_send, tiny_light_read and tiny_fd_run_tx wait for the functions of the user, so
-- that their fuel is an argument; with a function that moves a byte in the end, a bound on the rounds in
-- which it moves none gives the fuel, which the theorems state; for tiny_fd_run_tx there is some fuel.
--
-- Not modelled: logging; the mutexes, events and clocks of src/hal; the waits for events of
-- other threads in src/proto/fd; src/proto/hdlc/high_level, which waits for events too; the C++ classes,
-- the link layers, the language bindings, the examples and tests of the repository.
pub mod Prelude
pub mod Crc
pub mod Hdlc
pub mod User
pub mod TinyList
pub mod Fd
pub mod Light
