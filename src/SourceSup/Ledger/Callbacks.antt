-- ===== src/SourceSup/Ledger/Callbacks.antt =====
-- The ledger over the callbacks that launch nothing.
use sbs_server.Prelude.{
  ◌+◌, refl, All, ℕ, ◌≡◌, ◌≢◌, Bool, not, ◌&&◌, Option, none, some, List, arith, if_elim, is_some,
}
use sbs_server.Effects.{Effect}
use sbs_server.SourceSup.Types.{Entry}
use sbs_server.SourceSup.Worker.{Given, cleanup_worker, schedule_restart}
use sbs_server.SourceSup.Callbacks.{
  Ready, Ended, drained, peer_closed, broken, hear, fd_is, lose, take_messages, on_frame_available,
  on_child_exit, on_accept_timeout, on_stable_timer, accept_late,
}
use sbs_server.SourceSup.Ledger.{Kept, Kept-append, KeptOut}
use sbs_server.FrameSlot.Release.{published}
use sbs_server.Effects.Ledger.{tally, opened, closed, forked, reaped, added, removed}
use sbs_server.SourceSup.Messages.Loop.{Apart}
use sbs_server.SourceSup.Messages.Reading.{IsOther, read_messages_other, read_messages-kept}

pub on_accept_timeout-Kept :
    (x : ℕ) (e : Entry) → x ≢ 0 → Kept x 0 e 0 (on_accept_timeout e).0 (on_accept_timeout e).1
unfolding on_accept_timeout
on_accept_timeout-Kept x e real = ground arith

pub on_stable_timer-Kept :
    (x : ℕ) (e : Entry) → x ≢ 0 → Kept x 0 e 0 (on_stable_timer e).0 (on_stable_timer e).1
unfolding on_stable_timer
on_stable_timer-Kept x e real = ground arith

pub schedule_restart-Kept :
    (x : ℕ) (e : Entry) (w : Given) → x ≢ 0 → KeptOut x 0 e w.restart_timer (schedule_restart e w)
unfolding schedule_restart
schedule_restart-Kept x e w real = ground arith

pub on_child_exit-Kept :
    (x : ℕ) (e : Entry) (w : Given) → x ≢ 0 → KeptOut x 0 e w.restart_timer (on_child_exit e w)
unfolding on_child_exit schedule_restart
on_child_exit-Kept x e w real = ground arith

accept_late-Kept :
    (x : ℕ) (e : Entry) (r : Ready) (conn : Option ℕ)
    → x ≢ 0
    → e.conn_fd ≡ none
    → e.stable_timer_id ≡ 0
    → Kept x 0 e 0 (accept_late e r conn).0 (accept_late e r conn).1
unfolding accept_late
accept_late-Kept x e r none real k t = ground arith
accept_late-Kept x e r (some fd) real k t = ground arith

lose-Kept : (x : ℕ) (e : Entry) → x ≢ 0 → Kept x 0 e 0 (lose e).0 (lose e).1
unfolding lose
lose-Kept x e real = ground arith

abbrev KeptBy : ℕ → Entry → Entry × List Effect × Bool → Type 0
KeptBy x e r = Kept x 0 e 0 r.0 r.1

-- The weight is 0 on what a message makes the server do.
pub hear_other :
    (w : Effect → ℕ) (e : Entry) (r : Ready) (conn : Option ℕ)
    → IsOther w
    → tally w (hear e r conn).1 ≡ 0
unfolding hear
hear_other w e r none o = refl
hear_other w e r (some conn) o = read_messages_other w e.muted r.api conn _ r.messages o

hear-kept :
    (x : ℕ) (e : Entry) (r : Ready) (conn : Option ℕ)
    → All Apart r.messages
    → let calls = (hear e r conn).1 in
      tally (opened x) calls ≡ tally (closed x) calls + tally (published x) calls
unfolding hear
hear-kept x e r none apart = refl
hear-kept x e r (some conn) apart = read_messages-kept x e.muted r.api conn _ r.messages apart

any-IsOther :
    (x : ℕ) → IsOther (forked x) × IsOther (reaped x) × IsOther (added x) × IsOther (removed x)
any-IsOther x = (
  (λ fd. refl, λ fd. refl, λ sock m. refl, λ sock fd fd2. refl),
  (λ fd. refl, λ fd. refl, λ sock m. refl, λ sock fd fd2. refl),
  (λ fd. refl, λ fd. refl, λ sock m. refl, λ sock fd fd2. refl),
  (λ fd. refl, λ fd. refl, λ sock m. refl, λ sock fd fd2. refl),
)

heard-Kept :
    (x : ℕ) (e : Entry) (r : Ready)
    → All Apart r.messages
    → let (time, calls) = hear e r e.conn_fd in
      Kept x 0 e 0 (record e { last_frame_time = time }) calls
heard-Kept x e r apart = omega (
  arith,
  hear-kept x e r e.conn_fd apart,
  hear_other (forked x) e r e.conn_fd (any-IsOther x).0,
  hear_other (reaped x) e r e.conn_fd (any-IsOther x).1,
  hear_other (added x) e r e.conn_fd (any-IsOther x).2,
  hear_other (removed x) e r e.conn_fd (any-IsOther x).3,
)

take_messages-Kept :
    (x : ℕ) (e : Entry) (r : Ready) (ended : Ended)
    → x ≢ 0
    → All Apart r.messages
    → KeptBy x e (take_messages e r ended)
unfolding take_messages
take_messages-Kept x e r peer_closed real apart =
    let (time, calls) = hear e r e.conn_fd in
    let timed : Entry = record e { last_frame_time = time } in
    Kept-append x 0 0 0 e timed (lose timed).0 calls (lose timed).1 (heard-Kept x e r apart)
      (lose-Kept x timed real)
take_messages-Kept x e r drained real apart = heard-Kept x e r apart
take_messages-Kept x e r broken real apart = heard-Kept x e r apart

-- A connection is accepted only where there is no stable timer.
pub on_frame_available-Kept :
    (x : ℕ) (e : Entry) (fd : ℕ) (r : Ready)
    → x ≢ 0
    → All Apart r.messages
    → (e.conn_fd ≡ none → e.stable_timer_id ≡ 0)
    → KeptBy x e (on_frame_available e fd r)
unfolding on_frame_available
on_frame_available-Kept x e fd r real apart t =
    if_elim (KeptBy x e) (not (is_some e.conn_fd) && fd_is fd e.listen_fd)
      (λ fresh.
        let alone : e.conn_fd ≡ none = ground arith in
        accept_late-Kept x e r r.accepted real alone (t alone))
      (λ _.
        if_elim (KeptBy x e) r.hup (λ _. lose-Kept x e real)
          (λ _. take_messages-Kept x e r r.ended real apart))

pub cleanup_worker-Kept :
    (x : ℕ) (e : Entry) → x ≢ 0 → e.pid ≡ 0 → Kept x 0 e 0 (cleanup_worker e).0 (cleanup_worker e).1
unfolding cleanup_worker
cleanup_worker-Kept x e real p = ground arith
