-- ===== src/Effects.antt =====
-- What the code asks of the kernel, of GLib's main loop and of a source's frame slot: descriptors,
-- processes, messages, event sources, published frames. A function gives back its calls as a list, in their order.
pub mod Ledger
use sbs_server.Prelude.{ℕ, Option}
use sbs_server.Prelude.Bytes.{Bytes}

pub data Signal : Type 0 where
  sigterm sigkill : Signal

-- The messages without descriptors that the server sends.
pub data Sent : Type 0 where
  -- `sbs_frame_release_msg_t` with its sequence
  frame_release : ℕ → Sent
  -- `sbs_shutdown_msg_t` with `grace_period_ms` and `reason`
  shutdown : ℕ → ℕ → Sent

pub data Effect : Type 0 where
  -- a system call gave a new descriptor, `recvmsg` included; `close`
  opens : ℕ → Effect
  closes : ℕ → Effect
  sends : ℕ → Sent → Effect
  unlinks : Bytes → Effect
  -- `fork` gave a process; `kill`; the process was waited for
  forks : ℕ → Effect
  kills : ℕ → Signal → Effect
  reaps : ℕ → Effect
  -- an event source was made; `g_source_remove`; its callback said G_SOURCE_REMOVE, or it was the
  -- watch of a child, which ends with it
  adds : ℕ → Effect
  removes : ℕ → Effect
  ends : ℕ → Effect
  -- `sbs_frame_slot_publish` was given a frame with these `release_sock_fd`, `dmabuf_fd`, `dmabuf_fd2`
  publishes : Option ℕ → Option ℕ → Option ℕ → Effect
