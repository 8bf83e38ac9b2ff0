-- ===== src/SourceSup/Tests/Samples.antt =====
-- Entries, kernel answers and histories for the runs.
use sbs_server.Prelude.{refl, true, false, none, some, List, [], ◌∷◌, arith, All}
use sbs_server.Prelude.Bytes.{codes, str_eq}
use sbs_server.Prelude.Int.{pos}
use sbs_server.Ipc.Transport.{VideoFrame}
use sbs_server.SourceSup.Messages.Loop.{video, unknown}
use sbs_server.SourceSup.Messages.Reading.{read_messages}
use sbs_server.SourceSup.Operations.Totals.{IsTidyOp}
use sbs_server.SourceSup.Callbacks.{
  Ready, drained, on_frame_available, accept_late, take_messages, hear, on_child_exit,
  on_restart_timer, relaunched,
}
use sbs_server.SourceSup.Types.{StartConfig, Entry}
use sbs_server.SourceSup.Worker.{
  Given, launch, create_listen_socket, listen_on, launch_on, launch_with, forked_worker,
  first_accept, schedule_restart, cleanup_worker,
}
use sbs_server.SourceSup.System.{
  System, Event, socket_ready, on_socket, on_restart, worker_exits, restart_timeout, step,
}
use sbs_server.SourceSup.Invariant.{Sane, SaneEvent, IsValid, waiting}
use sbs_server.SourceSup.Ledger.Steps.{IsTidy}
use sbs_server.SourceSup.Supervisor.{
  Supervisor, Memory, new, start_source, start_new, launched, fire, mute_source, new_entry,
}
use sbs_server.SourceSup.Operations.{Op, SaneOp, starts, mutes, stops, fires, apply}
use sbs_server.Table.{lookup, insert, remove}
use sbs_server.SourceSup.Supervisor.{stop_source}
use sbs_server.SourceSup.Operations.Life.{AllQuiet}

abbrev pub camera : StartConfig
camera = record {
  source_id = some (codes "cam");
  source_type = some (codes "v4l2src");
  width = 1920;
  height = 1080;
  framerate_num = 30;
  framerate_den = 1;
  pattern = none;
  capture_mode = none;
  output_format = none;
  device_path = some (codes "/dev/video0");
  format = none;
  framerate = none;
  decode_mode = none;
  uri = none;
  loop = false;
  text = none;
  font_family = none;
  font_path = none;
  text_color = none;
  text_align = none;
  font_size = 0;
}

-- A launch that succeeds: the process 100, which has not connected yet.
abbrev pub good : Given
good = record {
  socket = some 5;
  bind_ok = true;
  listen_ok = true;
  pipe = some (6, 7);
  fork = some 100;
  now = pos 1;
  child_watch = 11;
  accept_timer = 12;
  accepted = none;
  io_watch = 13;
  stable_timer = 14;
  jitter = 3;
  add = true;
  restart_timer = 15;
}

-- The socket cannot be bound.
abbrev pub unbound : Given
unbound = record good { bind_ok = false }

pub good-Sane : Sane good
good-Sane = record {
  child_watch = omega arith;
  accept_timer = omega arith;
  io_watch = omega arith;
  stable_timer = omega arith;
  fork = λ e. ground (arith, e);
}

pub unbound-Sane : Sane unbound
unbound-Sane = record {
  child_watch = omega arith;
  accept_timer = omega arith;
  io_watch = omega arith;
  stable_timer = omega arith;
  fork = λ e. ground (arith, e);
}

abbrev pub entry : Entry
entry = record {
  source_id = codes "cam";
  source_type = codes "v4l2src";
  socket_path = codes "/run/sbs/source-cam.sock";
  pid = 99;
  listen_fd = some 5;
  conn_fd = none;
  io_watch_id = 1;
  child_watch_id = 2;
  accept_timer_id = 3;
  stable_timer_id = 0;
  restart_attempts = 0;
  last_start_time = pos 0;
  last_frame_time = pos 0;
  shutting_down = false;
  muted = false;
  config_copy = camera;
}

abbrev pub started : System
started = record { entry = entry; polled = some 5; restarts = [] }

pub started-IsValid : IsValid started
started-IsValid = waiting (record {
  pid = omega arith;
  child = omega arith;
  listen = λ e. ground (arith, e);
  conn = refl;
  io = omega arith;
  polled_fd = refl;
  stable = refl;
  none_due = refl;
  attempts = omega arith;
})

-- A frame that is to be acknowledged, with two descriptors.
abbrev pub frame : VideoFrame
frame = record {
  header = record { msg_type = 1; payload_size = 120 };
  pts_ns = 0;
  dts_ns = 0;
  duration_ns = 0;
  sequence = 7;
  width = 1920;
  height = 1080;
  drm_format = 0x3231564e;
  drm_modifier = 0;
  n_planes = 2;
  plane_offset = 0 ∷ 2073600 ∷ 0 ∷ 0 ∷ [];
  plane_stride = 1920 ∷ 1920 ∷ 0 ∷ 0 ∷ [];
  buffer_type = 0;
  flags = 64;
  dmabuf_fd2 = some 22;
}

-- The worker connects; a frame comes, for which the connection is duplicated.
abbrev pub connects : Ready
connects = record {
  accepted = some 8;
  hup = false;
  messages = [];
  source = none;
  api = false;
  ended = drained;
  io_watch = 16;
  stable_timer = 17;
}

abbrev pub shows : Ready
shows = record connects {
  messages = video frame (some 21) (some 22) true (some 23) (pos 20) ∷ unknown (some 24) none ∷ [];
}

-- The worker connects and sends a frame, ends, a restart fails, a second one succeeds.
abbrev pub crash : List Event
crash =
    socket_ready connects
    ∷ socket_ready shows
    ∷ worker_exits good
    ∷ restart_timeout unbound
    ∷ restart_timeout good
    ∷ []

pub crash_sane : All SaneEvent crash
crash_sane = (
  (omega arith, omega arith),
  ((omega arith, omega arith), (good-Sane, (unbound-Sane, (good-Sane, tt)))),
)

pub crash-IsTidy : All IsTidy crash
crash-IsTidy = (tt, ((omega arith, (tt, tt)), (tt, (tt, (tt, tt)))))

abbrev pub roomy : Memory
roomy = record { entry = true; path = true }

abbrev pub server : Supervisor
server = new (codes "/usr/bin/sbs-worker") (codes "/run/sbs")

-- A source is started, connects, sends a frame, is muted, crashes, and is started again; a second
-- start fails; the source is stopped.
abbrev pub evening : List Op
evening =
    starts camera true roomy good
    ∷ fires (codes "cam") (socket_ready connects)
    ∷ fires (codes "cam") (socket_ready shows)
    ∷ mutes (codes "cam")
    ∷ fires (codes "cam") (worker_exits good)
    ∷ fires (codes "cam") (restart_timeout good)
    ∷ starts camera true roomy unbound
    ∷ stops (codes "cam")
    ∷ []

pub evening_sane : All SaneOp evening
evening_sane = (
  good-Sane,
  (
    (omega arith, omega arith),
    ((omega arith, omega arith), (tt, (good-Sane, (good-Sane, (unbound-Sane, (tt, tt)))))),
  ),
)

pub evening_tidy : All IsTidyOp evening
evening_tidy = (tt, (tt, ((omega arith, (tt, tt)), (tt, (tt, (tt, (tt, (tt, tt))))))))

pub evening_quiet : AllQuiet server evening
unfolding apply lookup insert remove str_eq stop_source new start_source start_new launched launch
    fire create_listen_socket listen_on launch_on launch_with forked_worker first_accept mute_source
    new_entry step on_socket on_restart on_frame_available accept_late take_messages hear
    read_messages on_child_exit schedule_restart on_restart_timer relaunched cleanup_worker
evening_quiet = (tt, (tt, (tt, (tt, (tt, (tt, (tt, (refl, tt))))))))

-- One source that runs and is connected.
abbrev pub one : Supervisor
one = record {
  sources =
      (
        codes "cam",
        record {
          entry = record entry { conn_fd = some 8; last_frame_time = pos 10 };
          polled = some 8;
          restarts = [];
        },
      )
      ∷ [];
  worker_path = codes "/usr/bin/sbs-worker";
  sock_dir = codes "/run/sbs";
}

abbrev pub running : System
running = record {
  entry = record entry { conn_fd = some 8; last_frame_time = pos 10 };
  polled = some 8;
  restarts = [];
}
