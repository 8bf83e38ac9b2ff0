-- ===== src/SourceSup/Invariant/Socket.antt =====
-- The invariant over `on_frame_available`.
use sbs_server.Prelude.{
  ℕ, ◌≡◌, ◌≢◌, refl, Bool, not, ◌&&◌, Option, none, some, List, if◌then◌else◌, ◌==◌, is_some, arith,
  if_elim, ==_iff,
}
use mathlib.Core.Path.{sym, ◌∙◌}
use sbs_server.Prelude.Int.{ℤ}
use sbs_server.Effects.{Effect}
use sbs_server.SourceSup.Types.{Entry}
use sbs_server.SourceSup.Callbacks.{
  Ready, Ended, hear, drained, peer_closed, broken, fd_is, accept_late, lose, take_messages,
  on_frame_available,
}
use sbs_server.SourceSup.System.{System, socket_ready, watched_fd, on_socket, step}
use sbs_server.SourceSup.Invariant.{
  SaneEvent, IsWaiting, IsConnected, IsValid, down, waiting, connected, lost, StepOk,
}

-- The socket: a connection is accepted, lost, or used.
abbrev FrameOk : System → Entry × List Effect × Bool → Type 0
FrameOk s r = IsValid (record {
  entry = r.0;
  polled = if r.2 then s.polled else watched_fd r.0;
  restarts = s.restarts;
})

accept_late-IsValid :
    (s : System) (r : Ready) (conn : Option ℕ)
    → IsWaiting s.entry s.polled s.restarts
    → r.io_watch ≢ 0
    → FrameOk s (accept_late s.entry r conn)
unfolding accept_late
accept_late-IsValid s r none h real = waiting h
accept_late-IsValid s r (some fd) h real = connected (ground (arith, h))

lose-IsValid :
    (s : System) (t : ℤ)
    → IsConnected s.entry s.polled s.restarts
    → FrameOk s (lose (record (s.entry) { last_frame_time = t }))
unfolding lose
lose-IsValid s t h = lost (ground (arith, h))

take_messages-IsValid :
    (s : System) (r : Ready) (ended : Ended)
    → IsConnected s.entry s.polled s.restarts
    → FrameOk s (take_messages s.entry r ended)
unfolding take_messages
take_messages-IsValid s r peer_closed h = lose-IsValid s (hear s.entry r s.entry.conn_fd).0 h
take_messages-IsValid s r drained h = connected (ground (arith, h))
take_messages-IsValid s r broken h = connected (ground (arith, h))

waiting-frame :
    (s : System) (r : Ready) (fd : ℕ)
    → IsWaiting s.entry s.polled s.restarts
    → s.polled ≡ some fd
    → r.io_watch ≢ 0
    → FrameOk s (on_frame_available s.entry fd r)
unfolding on_frame_available
waiting-frame s r fd h e real =
    let listening : s.entry.listen_fd ≡ some fd = sym h.polled_fd ∙ e in
    if_elim (FrameOk s) (not (is_some s.entry.conn_fd) && fd_is fd s.entry.listen_fd)
      (λ _. accept_late-IsValid s r r.accepted h real) (λ other. absurd (ground (arith, h.conn)))

connected-frame :
    (s : System) (r : Ready) (fd : ℕ)
    → IsConnected s.entry s.polled s.restarts
    → FrameOk s (on_frame_available s.entry fd r)
unfolding on_frame_available
connected-frame s r fd h =
    if_elim (FrameOk s) (not (is_some s.entry.conn_fd) && fd_is fd s.entry.listen_fd)
      (λ fresh. absurd (ground (arith, h.conn)))
      (λ _.
        if_elim (FrameOk s) r.hup (λ _. lose-IsValid s s.entry.last_frame_time h)
          (λ _. take_messages-IsValid s r r.ended h))

socket-IsValid :
    (s : System) (r : Ready) (fd : Option ℕ)
    → s.polled ≡ fd
    → SaneEvent (socket_ready r)
    → IsValid s
    → s.entry.io_watch_id ≢ 0
    → IsValid (on_socket s r fd).0
unfolding on_socket
socket-IsValid s r none e sane v on = v
socket-IsValid s r (some fd) e sane (down h) on = absurd (on h.io)
socket-IsValid s r (some fd) e sane (waiting h) on = waiting-frame s r fd h e sane.0
socket-IsValid s r (some fd) e sane (connected h) on = connected-frame s r fd h
socket-IsValid s r (some fd) e sane (lost h) on = absurd (on h.io)

pub socket_ready-IsValid :
    (s : System) (r : Ready)
    → SaneEvent (socket_ready r)
    → IsValid s
    → IsValid (step s (socket_ready r)).0
unfolding step
socket_ready-IsValid s r sane v =
    if_elim StepOk (s.entry.io_watch_id == 0) (λ _. v)
      (λ on.
        socket-IsValid s r s.polled refl sane v
          (λ e. absurd (ground (arith, ==_iff s.entry.io_watch_id 0))))
