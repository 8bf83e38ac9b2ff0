-- ===== src/Ipc/Tests.antt =====
-- A header of each kind.
use sbs_server.Ipc.Transport.{
  VideoFrame, Call, SendResult, wrote, frame_size, send_frame2, recv_frame2, ok, RecvResult, read,
}
use sbs_server.Ipc.Passing.{
  delivers, second_of, arrived, Accounts, recv_frame2-send_frame2, recv_frame2-Accounts,
}
use sbs_server.Prelude.{ℕ, some, [], ◌∷◌, arith, ◌≡◌, refl, true, false}
use sbs_server.Ipc.{header_valid}

gap_refused : header_valid (record { msg_type = 0x15; payload_size = 0 }) ≡ false
unfolding header_valid
gap_refused = refl

abbrev frame : VideoFrame
frame = record {
  header = record { msg_type = 1; payload_size = 120 };
  pts_ns = 0;
  dts_ns = 0;
  duration_ns = 0;
  sequence = 7;
  width = 1920;
  height = 1080;
  drm_format = 0x3231564e;
  drm_modifier = 0;
  n_planes = 2;
  plane_offset = 0 ∷ 2073600 ∷ 0 ∷ 0 ∷ [];
  plane_stride = 1920 ∷ 1920 ∷ 0 ∷ 0 ∷ [];
  buffer_type = 0;
  flags = 64;
  dmabuf_fd2 = some 22;
}

-- A socket with room.
abbrev takes_all : Call → SendResult
takes_all call = wrote frame_size

recv_frame2-send_frame2_example :
    let (rc, call) = send_frame2 takes_all (some 3) frame (some 21) (some 22) in
    (rc ≡ ok)
    × (recv_frame2 (delivers call) (some 4) true ≡ (
      record { rc = ok; frame = some frame; fd = some 21; fd2 = second_of (some 21) (some 22) },
      [],
    ))
recv_frame2-send_frame2_example =
    recv_frame2-send_frame2 takes_all 3 4 frame (some 21) (some 22) (λ call. refl)

-- Half a frame with a descriptor.
abbrev short : ℕ → RecvResult
short sock = read 64 frame (record { rights = true; fds = 21 ∷ [] } ∷ [])

recv_frame2-Accounts_example : Accounts 21 (arrived 21 (short 4)) (recv_frame2 short (some 4) true)
recv_frame2-Accounts_example = recv_frame2-Accounts short 4 21 (refl, tt, omega arith)
