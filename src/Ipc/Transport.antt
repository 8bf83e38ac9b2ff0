-- ===== src/Ipc/Transport.antt =====
-- src/common/ipc_transport.c: frames and messages over a socket. What the system calls give is an
-- argument; a descriptor is a number, and one below 0 is `none`.
use sbs_server.Prelude.{
  ℕ, Bool, false, not, Option, none, some, List, [], ◌∷◌, ◌++◌, if◌then◌else◌, ◌==◌,
}
use sbs_server.Prelude.Bytes.{Bytes}
use sbs_server.Effects.{Effect, closes}
use sbs_server.Ipc.{Header}

-- `sbs_video_frame_msg_t`
pub record VideoFrame : Type 0 where
  pub header : Header
  pub pts_ns : ℕ
  pub dts_ns : ℕ
  pub duration_ns : ℕ
  pub sequence : ℕ
  pub width : ℕ
  pub height : ℕ
  pub drm_format : ℕ
  pub drm_modifier : ℕ
  pub n_planes : ℕ
  pub plane_offset : List ℕ
  pub plane_stride : List ℕ
  pub buffer_type : ℕ
  pub flags : ℕ
  pub dmabuf_fd2 : Option ℕ

-- `sizeof(sbs_video_frame_msg_t)`, as the static assertion has it
abbrev pub frame_size : ℕ
frame_size = 128

pub data Errno : Type 0 where
  eagain ewouldblock epipe econnreset other : Errno

-- SBS_OK and the codes that the file gives.
pub data Rc : Type 0 where
  ok inval io would_block pipe eof : Rc

-- What `sendmsg` and `send` give.
pub data SendResult : Type 0 where
  failed : Errno → SendResult
  wrote : ℕ → SendResult

abbrev pub send_error : Errno → Rc
send_error eagain = would_block
send_error ewouldblock = would_block
send_error epipe = pipe
send_error econnreset = pipe
send_error other = io

unfoldable pub sent_rc : ℕ → SendResult → Rc
sent_rc size (failed e) = send_error e
sent_rc size (wrote n) = if n == size then ok else io

-- The `fds` of `sbs_ipc_send_frame2`.
unfoldable pub sent_fds : Option ℕ → Option ℕ → List ℕ
sent_fds none fd2 = []
sent_fds (some fd) none = fd ∷ []
sent_fds (some fd) (some fd2) = fd ∷ fd2 ∷ []

-- What is handed to `sendmsg`: the socket, the message of 128 bytes, and the descriptors of the one
-- control message, which there is just if there are descriptors.
pub record Call : Type 0 where
  pub sock : ℕ
  pub msg : VideoFrame
  pub fds : List ℕ

-- `sbs_ipc_send_frame2`: the code, and the call of `sendmsg` that it makes.
unfoldable pub send_frame2 :
    (Call → SendResult) → Option ℕ → VideoFrame → Option ℕ → Option ℕ → Rc × Option Call
unfolding sent_rc
send_frame2 sendmsg none msg fd fd2 = (inval, none)
send_frame2 sendmsg (some sock) msg fd fd2 =
    let call : Call = record { sock = sock; msg = msg; fds = sent_fds fd fd2 } in
    (sent_rc frame_size (sendmsg call), some call)

-- `sbs_ipc_send_frame`
unfoldable pub send_frame :
    (Call → SendResult) → Option ℕ → VideoFrame → Option ℕ → Rc × Option Call
unfolding send_frame2
send_frame sendmsg sock msg fd = send_frame2 sendmsg sock msg fd none

-- `sbs_ipc_send_msg`
unfoldable pub send_msg : (ℕ → Bytes → SendResult) → Option ℕ → Bytes → ℕ → Rc
unfolding sent_rc
send_msg send none bytes len = inval
send_msg send (some sock) bytes len = if len == 0 then inval else sent_rc len (send sock bytes)

-- A control message of `recvmsg`: whether it is SCM_RIGHTS, and its descriptors.
pub record Cmsg : Type 0 where
  pub rights : Bool
  pub fds : List ℕ

-- What `recvmsg` gives: the bytes read, the message as far as it was written, the control messages.
pub data RecvResult : Type 0 where
  failed : Errno → RecvResult
  read : ℕ → VideoFrame → List Cmsg → RecvResult

abbrev pub recv_error : Errno → Rc
recv_error eagain = would_block
recv_error ewouldblock = would_block
recv_error epipe = io
recv_error econnreset = pipe
recv_error other = io

unfoldable pub close_each : List ℕ → List Effect
close_each [] = []
close_each (fd ∷ fds) = closes fd ∷ close_each fds

-- The loop of `sbs_ipc_recv_frame2` after a short read.
unfoldable pub close_all : List Cmsg → List Effect
unfolding close_each
close_all [] = []
close_all (c ∷ cs) = (if c.rights then close_each c.fds else []) ++ close_all cs

-- The two `memcpy` from a control message; `wanted` is whether `dmabuf_fd2` is not NULL.
unfoldable pub taken_fds : Bool → List ℕ → Option ℕ × Option ℕ
taken_fds wanted [] = (none, none)
taken_fds wanted (fd ∷ []) = (some fd, none)
taken_fds wanted (fd ∷ fd2 ∷ _) = (some fd, if wanted then some fd2 else none)

-- The loop over the control messages, which stops at the first with rights.
unfoldable pub first_rights : Bool → List Cmsg → Option ℕ × Option ℕ
unfolding taken_fds
first_rights wanted [] = (none, none)
first_rights wanted (c ∷ cs) =
    let rest = first_rights wanted cs in if c.rights then taken_fds wanted c.fds else rest

-- What is received: the code, the frame if one was written, the descriptors.
pub record Received : Type 0 where
  pub rc : Rc
  pub frame : Option VideoFrame
  pub fd : Option ℕ
  pub fd2 : Option ℕ

abbrev pub nothing : Rc → Received
nothing rc = record { rc = rc; frame = none; fd = none; fd2 = none }

unfoldable pub recv_done : Bool → RecvResult → Received × List Effect
unfolding first_rights close_all
recv_done wanted (failed e) = (nothing (recv_error e), [])
recv_done wanted (read n msg cs) =
    if n == 0
    then (nothing eof, [])
    else if not (n == frame_size)
    then (record { rc = io; frame = some msg; fd = none; fd2 = none }, close_all cs)
    else (
      record {
        rc = ok;
        frame = some msg;
        fd = (first_rights wanted cs).0;
        fd2 = (first_rights wanted cs).1;
      },
      [],
    )

-- `sbs_ipc_recv_frame2`
unfoldable pub recv_frame2 : (ℕ → RecvResult) → Option ℕ → Bool → Received × List Effect
unfolding recv_done
recv_frame2 recvmsg none wanted = (nothing inval, [])
recv_frame2 recvmsg (some sock) wanted = recv_done wanted (recvmsg sock)

-- `sbs_ipc_recv_frame`
unfoldable pub recv_frame : (ℕ → RecvResult) → Option ℕ → Received × List Effect
unfolding recv_frame2
recv_frame recvmsg sock = recv_frame2 recvmsg sock false

-- What `recv` gives: bytes.
pub data BytesResult : Type 0 where
  failed : Errno → BytesResult
  got : Bytes → BytesResult

-- `sbs_ipc_recv_msg`: the code, and the bytes read.
unfoldable pub recv_msg : (ℕ → ℕ → BytesResult) → Option ℕ → ℕ → Rc × Bytes
recv_msg recv none max_len = (inval, [])
recv_msg recv (some sock) max_len = if max_len == 0 then (inval, []) else elim (recv sock max_len) [
  | failed e ↦ (recv_error e, [])
  | got [] ↦ (eof, [])
  | got (b ∷ bs) ↦ (ok, b ∷ bs)
]
