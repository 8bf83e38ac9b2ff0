-- ===== src/SourceSup/Messages/Graph.antt =====
-- What the messages leave in the source of the scene graph.
use sbs_server.Prelude.{
  ℕ, ◌≡◌, refl, true, false, ◌&&◌, List, if◌then◌else◌, ◌==◌, arith, ==_iff, get_or,
}
use sbs_server.Ipc.Transport.{VideoFrame}
use sbs_server.SceneGraph.Types.{Source}
use sbs_server.SourceSup.Messages.{
  is_hdr, two, depth_of, same_two, size_same, format_same, colour_same, frame_source,
}

-- After a video frame the source has the frame's size, modifier, strides, offsets, depth and dynamic
-- range, and its format where the frame names one.
pub frame_source-written :
    (src : Source) (msg : VideoFrame)
    → let (src', changed) = frame_source src msg in
      (src'.frame_width ≡ msg.width)
      × (src'.frame_height ≡ msg.height)
      × (src'.drm_modifier ≡ msg.drm_modifier)
      × (src'.plane_stride ≡ two msg.plane_stride)
      × (src'.plane_offset ≡ two msg.plane_offset)
      × (src'.color_depth ≡ depth_of msg)
      × (src'.hdr ≡ is_hdr msg)
      × (src'.drm_format ≡ (if msg.drm_format == 0 then src.drm_format else msg.drm_format))
unfolding frame_source size_same format_same colour_same
frame_source-written src msg = ground arith

abbrev Quiet : Source → VideoFrame → Type 0
Quiet src msg =
    (size_same src msg ≡ true)
    × (format_same src msg ≡ true)
    × (src.drm_modifier ≡ msg.drm_modifier)
    × (same_two src.plane_stride msg.plane_stride ≡ true)
    × (colour_same src msg ≡ true)

unchanged-Quiet :
    (src : Source) (msg : VideoFrame) → (frame_source src msg).1 ≡ false → Quiet src msg
unfolding frame_source
unchanged-Quiet src msg h = grind (arith, h, ==_iff src.drm_modifier msg.drm_modifier)

Quiet-frame_source :
    (src : Source) (msg : VideoFrame)
    → Quiet src msg
    → (frame_source src msg).0
      ≡ record src { plane_offset = two msg.plane_offset; plane_stride = two msg.plane_stride }
unfolding frame_source
Quiet-frame_source src msg (sized, formatted, modifier, strides, coloured) =
    rw (sized, formatted, coloured, ← modifier) refl

two_same : (xs ys : List ℕ) → same_two xs ys ≡ true → two xs ≡ two ys
two_same xs ys h =
    let (first, second) = both (get_or xs 0 0) (get_or ys 0 0) (get_or xs 1 0) (get_or ys 1 0) h in
    cc
  where
    both : (a b c d : ℕ) → ((a == b) && (c == d)) ≡ true → (a ≡ b) × (c ≡ d)
    both a b c d h = ground arith

-- If no change of the scene is announced after a video frame, nothing of the source is written but the
-- strides and offsets, and the strides that it had were the frame's.
pub frame_source-unchanged :
    (src : Source) (msg : VideoFrame)
    → (frame_source src msg).1 ≡ false
    → ((frame_source src msg).0
        ≡ record src { plane_offset = two msg.plane_offset; plane_stride = two msg.plane_stride })
      × (two src.plane_stride ≡ two msg.plane_stride)
frame_source-unchanged src msg h =
    let quiet = unchanged-Quiet src msg h in
    (Quiet-frame_source src msg quiet, two_same src.plane_stride msg.plane_stride quiet.3)
