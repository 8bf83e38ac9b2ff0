-- ===== src/Ipc.antt =====
-- src/common/ipc_proto.c and the header of include/sbs/ipc.h: which messages there are.
pub mod Transport
pub mod Passing
mod Tests
use sbs_server.Prelude.{
  ℕ, Bool, true, ◌&&◌, ◌≡◌, ◌↔◌, ◌⊎◌, inl, inr, refl, if◌then◌else◌, ◌==◌, leb, arith,
}
use mathlib.Core.Path.{subst, sym}

-- `sbs_ipc_msg_type_t`
pub data MsgType : Type 0 where
  video_frame composed_frame audio_buffer status config_update shutdown signal_change frame_release
        ack error :
      MsgType

abbrev pub msg_code : MsgType → ℕ
msg_code video_frame = 0x0001
msg_code composed_frame = 0x0002
msg_code audio_buffer = 0x0003
msg_code status = 0x0010
msg_code config_update = 0x0011
msg_code shutdown = 0x0012
msg_code signal_change = 0x0013
msg_code frame_release = 0x0014
msg_code ack = 0x0020
msg_code error = 0x00FF

-- `sbs_ipc_msg_header_t`
pub record Header : Type 0 where
  pub msg_type : ℕ
  pub payload_size : ℕ

-- `sbs_ipc_header_valid`, of a header other than NULL
unfoldable pub header_valid : Header → Bool
header_valid hdr =
    let t = hdr.msg_type in
    if leb (msg_code video_frame) t && leb t (msg_code audio_buffer)
    then true
    else if leb (msg_code status) t && leb t (msg_code signal_change)
    then true
    else if t == msg_code frame_release
    then true
    else if t == msg_code ack
    then true
    else t == msg_code error

-- `sbs_ipc_header_init`
abbrev pub header_init : MsgType → ℕ → Header
header_init type payload_size = record { msg_type = msg_code type; payload_size = payload_size }

code-valid : (type : MsgType) (size : ℕ) → header_valid (header_init type size) ≡ true
unfolding header_valid
code-valid video_frame size = refl
code-valid composed_frame size = refl
code-valid audio_buffer size = refl
code-valid status size = refl
code-valid config_update size = refl
code-valid shutdown size = refl
code-valid signal_change size = refl
code-valid frame_release size = refl
code-valid ack size = refl
code-valid error size = refl

-- The codes, as a list of cases.
abbrev IsCode : ℕ → Type 0
IsCode t =
    (t ≡ 1)
    ⊎ ((t ≡ 2)
        ⊎ ((t ≡ 3)
            ⊎ ((t ≡ 16)
                ⊎ ((t ≡ 17) ⊎ ((t ≡ 18) ⊎ ((t ≡ 19) ⊎ ((t ≡ 20) ⊎ ((t ≡ 32) ⊎ (t ≡ 255)))))))))

valid-IsCode : (hdr : Header) → header_valid hdr ≡ true → IsCode hdr.msg_type
unfolding header_valid
valid-IsCode hdr h = ground arith

code_of : (t : ℕ) → IsCode t → (type : MsgType) × (t ≡ msg_code type)
code_of t (inl e) = (video_frame, e)
code_of t (inr (inl e)) = (composed_frame, e)
code_of t (inr (inr (inl e))) = (audio_buffer, e)
code_of t (inr (inr (inr (inl e)))) = (status, e)
code_of t (inr (inr (inr (inr (inl e))))) = (config_update, e)
code_of t (inr (inr (inr (inr (inr (inl e)))))) = (shutdown, e)
code_of t (inr (inr (inr (inr (inr (inr (inl e))))))) = (signal_change, e)
code_of t (inr (inr (inr (inr (inr (inr (inr (inl e)))))))) = (frame_release, e)
code_of t (inr (inr (inr (inr (inr (inr (inr (inr (inl e))))))))) = (ack, e)
code_of t (inr (inr (inr (inr (inr (inr (inr (inr (inr e))))))))) = (error, e)

-- A header is valid exactly if it is one that `header_init` makes for a message type: the ranges that
-- the test compares with leave no type out and let no other number in.
pub header_valid-header_init :
    (hdr : Header)
    → (header_valid hdr ≡ true) ↔ ((type : MsgType) × (hdr ≡ header_init type hdr.payload_size))
header_valid-header_init hdr = (
  λ h. let (type, e) = code_of hdr.msg_type (valid-IsCode hdr h) in (type, rw⁻¹ e refl),
  λ (type, e). subst (λ x. header_valid x ≡ true) (sym e) (code-valid type hdr.payload_size),
)
