-- ===== src/SourceSup/Messages.antt =====
-- The messages in the loop of `on_frame_available`: what they do to the source in the scene graph and
-- to the frame slot. The union's bytes past the 128 of a video frame stay 0: of a status's error text
-- the first 52 bytes are read, of a signal change's transfer function the first 8.
pub mod Frames
pub mod Graph
pub mod Loop
pub mod Reading
mod Tests
use sbs_server.Prelude.{
  ℕ, ◌/◌, ◌%◌, ◌^◌, Bool, true, false, not, ◌&&◌, ◌||◌, Option, none, some, List, [], ◌∷◌, ◌++◌,
  if◌then◌else◌, ◌==◌, ltb, get_or,
}
use sbs_server.Prelude.Bytes.{Bytes, codes, str_eq}
use sbs_server.Effects.{Effect, opens, sends, frame_release}
use sbs_server.FrameSlot.Release.{FrameFds, close_fd, close_second, fds_release}
use sbs_server.Ipc.Transport.{VideoFrame}
use sbs_server.SceneGraph.Types.{Source}

-- `flags & (1 << i)`
abbrev pub flag_bit : ℕ → ℕ → Bool
flag_bit flags i = (flags / 2 ^ i) % 2 == 1

-- SBS_FRAME_FLAG_HDR and SBS_FRAME_FLAG_NEEDS_RELEASE
abbrev pub is_hdr : VideoFrame → Bool
is_hdr msg = flag_bit msg.flags 0

abbrev pub needs_release : VideoFrame → Bool
needs_release msg = flag_bit msg.flags 6

-- DRM_FORMAT_P010
abbrev pub p010 : ℕ
p010 = 0x3031504e

-- `send_source_frame_release`
unfoldable pub send_release : Option ℕ → VideoFrame → List Effect
send_release none msg = []
send_release (some sock) msg =
    if needs_release msg then sends sock (frame_release msg.sequence) ∷ [] else []

-- The frame that is published, if there is one, and the calls: from `calloc` on, with what it and
-- `dup` give.
unfoldable pub leased_frame :
    Option ℕ → VideoFrame → FrameFds → Option ℕ → Option FrameFds × List Effect
leased_frame conn msg fds none = (none, send_release conn msg ++ fds_release fds)
leased_frame conn msg fds (some sock) = (
  some (record fds {
    release_sock_fd = some sock;
    release_sequence = msg.sequence;
    needs_release_ack = true;
  }),
  opens sock ∷ [],
)

unfoldable pub keep_frame :
    Option ℕ → VideoFrame → Option ℕ → Option ℕ → Bool → Option ℕ → Option FrameFds × List Effect
unfolding leased_frame
keep_frame conn msg fd fd2 memory dup =
    let fds : FrameFds = record {
      dmabuf_fd = fd;
      dmabuf_fd2 = fd2;
      release_sock_fd = none;
      release_sequence = 0;
      needs_release_ack = false;
    } in
    if not memory
    then (none, send_release conn msg ++ (close_fd fd ++ close_second fd fd2))
    else if needs_release msg
    then leased_frame conn msg fds dup
    else (some fds, [])

-- A video frame on the connection `conn` with its descriptors, at an entry that is muted or not.
unfoldable pub take_frame :
    Bool
    → Option ℕ
    → VideoFrame
    → Option ℕ
    → Option ℕ
    → Bool
    → Option ℕ
    → Option FrameFds × List Effect
unfolding keep_frame send_release
take_frame muted conn msg fd fd2 memory dup =
    if muted
    then (none, send_release conn msg ++ (close_fd fd ++ close_fd fd2))
    else keep_frame conn msg fd fd2 memory dup

-- The branch of an unknown message.
abbrev pub drop_unknown : Option ℕ → Option ℕ → List Effect
drop_unknown fd fd2 = close_fd fd ++ close_second fd fd2

-- Two planes of the frame's four.
abbrev pub two : List ℕ → List ℕ
two xs = get_or xs 0 0 ∷ get_or xs 1 0 ∷ []

abbrev pub same_two : List ℕ → List ℕ → Bool
same_two xs ys = (get_or xs 0 0 == get_or ys 0 0) && (get_or xs 1 0 == get_or ys 1 0)

abbrev pub space_of : Bool → Bytes
space_of hdr = if hdr then codes "BT.2020" else codes "BT.709"

abbrev pub eotf_of : Bool → Bytes
eotf_of hdr = if hdr then codes "PQ" else codes "SDR"

abbrev pub depth_of : VideoFrame → ℕ
depth_of msg = if msg.drm_format == p010 then 10 else 8

abbrev same_bool : Bool → Bool → Bool
same_bool true b = b
same_bool false b = not b

-- The tests that set `scene_changed`.
unfoldable pub size_same : Source → VideoFrame → Bool
size_same src msg = (src.frame_width == msg.width) && (src.frame_height == msg.height)

unfoldable pub format_same : Source → VideoFrame → Bool
format_same src msg = (msg.drm_format == 0) || (src.drm_format == msg.drm_format)

unfoldable pub colour_same : Source → VideoFrame → Bool
colour_same src msg = (src.color_depth == depth_of msg) && same_bool src.hdr (is_hdr msg)

-- The source after a video frame, and `scene_changed`.
unfoldable pub frame_source : Source → VideoFrame → Source × Bool
unfolding size_same format_same colour_same
frame_source src msg =
    let sized : Source =
      (if size_same src msg then src else record src {
        frame_width = msg.width;
        frame_height = msg.height;
        slot_initialized = true;
      }) in
    let formatted : Source =
      (if format_same src msg then sized else record sized { drm_format = msg.drm_format }) in
    let coloured : Source =
      (if colour_same src msg then formatted else record formatted {
        color_depth = depth_of msg;
        hdr = is_hdr msg;
        color_space = space_of (is_hdr msg);
        hdr_eotf = eotf_of (is_hdr msg);
      }) in
    (
      record coloured {
        drm_modifier = msg.drm_modifier;
        plane_offset = two msg.plane_offset;
        plane_stride = two msg.plane_stride;
      },
      not (
          size_same src msg
          && (format_same src msg
              && ((src.drm_modifier == msg.drm_modifier)
                  && (same_two src.plane_stride msg.plane_stride && colour_same src msg)))),
    )

-- SBS_WORKER_STATE_RUNNING and SBS_WORKER_STATE_ERROR
abbrev pub worker_running : ℕ
worker_running = 2

abbrev pub worker_error : ℕ
worker_error = 4

-- The source after a status message, and whether "source.status" is published.
unfoldable pub status_source : Source → ℕ → Bytes → Source × Bool
status_source src state error =
    if (state == worker_running) && not (str_eq src.runtime_state (codes "running"))
    then (record src { runtime_state = codes "running" }, true)
    else if state == worker_error
    then (record src { runtime_state = codes "error"; error_message = some error }, true)
    else (src, false)

-- What a signal change says of the signal.
pub record Signal : Type 0 where
  pub width : ℕ
  pub height : ℕ
  pub color_space : Bytes
  pub color_depth : ℕ
  pub hdr_eotf : Bytes

-- The source after a signal change.
unfoldable pub signal_source : Source → Signal → Source
signal_source src sc = record src {
  frame_width = if ltb 0 sc.width then sc.width else src.frame_width;
  frame_height = if ltb 0 sc.height then sc.height else src.frame_height;
  color_depth = if ltb 0 sc.color_depth then sc.color_depth else 8;
  hdr = not (str_eq sc.hdr_eotf (codes "SDR"));
  color_space = sc.color_space;
  hdr_eotf = sc.hdr_eotf;
  slot_initialized = true;
}
