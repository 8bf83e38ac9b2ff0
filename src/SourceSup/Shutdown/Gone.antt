-- ===== src/SourceSup/Shutdown/Gone.antt =====
-- What `shutdown_all` gives up.
use sbs_server.Prelude.{
  ℕ, ◌+◌, ◌≡◌, ◌≢◌, Bool, true, List, [], ◌∷◌, ◌++◌, if◌then◌else◌, arith, if_elim,
}
use sbs_server.Effects.{Effect}
use sbs_server.Effects.Ledger.{tally, tally-append, opened, closed, forked, reaped, added, removed}
use sbs_server.FrameSlot.Release.{published}
use sbs_server.SourceSup.Types.{Entry}
use sbs_server.SourceSup.Supervisor.{send_shutdown, terminate, free_all}
use sbs_server.SourceSup.Ledger.{fds, procs, sources}
use sbs_server.SourceSup.Ledger.Steps.{entry_free-gone, entry_free_quiet}
use sbs_server.SourceSup.Worker.{entry_free}
use sbs_server.SourceSup.Shutdown.{
  ask_all, poll_entry, poll_round, poll_until, terminate_all, kill_entry, kill_all, force,
  shutdown_entries,
}

-- The descriptors and processes that a list of entries holds.
abbrev pub all_fds : ℕ → List Entry → ℕ
all_fds x [] = 0
all_fds x (e ∷ es) = fds x e + all_fds x es

abbrev pub all_procs : ℕ → List Entry → ℕ
all_procs x [] = 0
all_procs x (e ∷ es) = procs x e + all_procs x es

abbrev pub all_sources : ℕ → List Entry → ℕ
all_sources x [] = 0
all_sources x (e ∷ es) = sources x e + all_sources x es

-- Nothing is acquired; what was held is held afterwards or given up.
abbrev pub GivesUp : ℕ → List Entry → List Entry → List Effect → Type 0
GivesUp x es es' calls =
    (tally (opened x) calls ≡ 0)
    × (tally (forked x) calls ≡ 0)
    × (tally (added x) calls ≡ 0)
    × (tally (published x) calls ≡ 0)
    × (all_fds x es ≡ all_fds x es' + tally (closed x) calls)
    × (all_procs x es ≡ all_procs x es' + tally (reaped x) calls)
    × (all_sources x es ≡ all_sources x es' + tally (removed x) calls)

GivesUp-append :
    (x : ℕ) (es es' es'' : List Entry) (calls rest : List Effect)
    → GivesUp x es es' calls
    → GivesUp x es' es'' rest
    → GivesUp x es es'' (calls ++ rest)
GivesUp-append x es es' es'' calls rest first second = omega (
  arith,
  first,
  second,
  tally-append (opened x) calls rest,
  tally-append (forked x) calls rest,
  tally-append (closed x) calls rest,
  tally-append (reaped x) calls rest,
  tally-append (added x) calls rest,
  tally-append (removed x) calls rest,
  tally-append (published x) calls rest,
)

GivesUp-cons :
    (x : ℕ) (e e' : Entry) (es es' : List Entry) (calls rest : List Effect)
    → GivesUp x (e ∷ []) (e' ∷ []) calls
    → GivesUp x es es' rest
    → GivesUp x (e ∷ es) (e' ∷ es') (calls ++ rest)
GivesUp-cons x e e' es es' calls rest first second = omega (
  arith,
  first,
  second,
  tally-append (opened x) calls rest,
  tally-append (forked x) calls rest,
  tally-append (closed x) calls rest,
  tally-append (reaped x) calls rest,
  tally-append (added x) calls rest,
  tally-append (removed x) calls rest,
  tally-append (published x) calls rest,
)

ask-GivesUp : (x : ℕ) (es : List Entry) → GivesUp x es (ask_all es).0 (ask_all es).1
unfolding ask_all
ask-GivesUp x [] = ground arith
ask-GivesUp x (e ∷ es) =
    GivesUp-cons x e (record e { shutting_down = true }) es (ask_all es).0
      (send_shutdown (record e { shutting_down = true })) (ask_all es).1 (ground arith)
      (ask-GivesUp x es)

round-GivesUp :
    (x : ℕ) (ended : ℕ → Bool) (es : List Entry)
    → x ≢ 0
    → GivesUp x es (poll_round ended es).0 (poll_round ended es).1
unfolding poll_round poll_entry
round-GivesUp x ended [] real = ground arith
round-GivesUp x ended (e ∷ es) real =
    let (e', calls, gone) = poll_entry ended e in
    GivesUp-cons x e e' es (poll_round ended es).0 calls (poll_round ended es).1 (ground arith)
      (round-GivesUp x ended es real)

abbrev PollGivesUp : ℕ → List Entry → List Entry × List Effect × Bool → Type 0
PollGivesUp x es r = GivesUp x es r.0 r.1

until-GivesUp :
    (x : ℕ) (answers : List (ℕ → Bool)) (es : List Entry)
    → x ≢ 0
    → PollGivesUp x es (poll_until answers es)
unfolding poll_until
until-GivesUp x [] es real = ground arith
until-GivesUp x (ended ∷ answers) es real =
    let (es', calls, all) = poll_round ended es in
    let (es'', rest, all') = poll_until answers es' in
    if_elim (PollGivesUp x es) all (λ _. round-GivesUp x ended es real)
      (λ _.
        GivesUp-append x es es' es'' calls rest (round-GivesUp x ended es real)
          (until-GivesUp x answers es' real))

kill-GivesUp : (x : ℕ) (es : List Entry) → x ≢ 0 → GivesUp x es (kill_all es).0 (kill_all es).1
unfolding kill_all
kill-GivesUp x [] real = ground arith
kill-GivesUp x (e ∷ es) real =
    GivesUp-cons x e (record e { pid = 0 }) es (kill_all es).0 (kill_entry e) (kill_all es).1
      (ground arith) (kill-GivesUp x es real)

terminate-GivesUp : (x : ℕ) (es : List Entry) → GivesUp x es es (terminate_all es)
unfolding terminate_all
terminate-GivesUp x [] = ground arith
terminate-GivesUp x (e ∷ es) =
    GivesUp-cons x e e es es (terminate e) (terminate_all es) (ground arith)
      (terminate-GivesUp x es)

free-GivesUp : (x : ℕ) (es : List Entry) → x ≢ 0 → GivesUp x es [] (free_all es)
unfolding free_all
free-GivesUp x [] real = ground arith
free-GivesUp x (e ∷ es) real = omega (
  arith,
  entry_free-gone x e real,
  entry_free_quiet x e,
  free-GivesUp x es real,
  tally-append (opened x) (entry_free e) (free_all es),
  tally-append (forked x) (entry_free e) (free_all es),
  tally-append (closed x) (entry_free e) (free_all es),
  tally-append (reaped x) (entry_free e) (free_all es),
  tally-append (added x) (entry_free e) (free_all es),
  tally-append (removed x) (entry_free e) (free_all es),
  tally-append (published x) (entry_free e) (free_all es),
)

force-GivesUp :
    (x : ℕ) (answers : List (ℕ → Bool)) (es : List Entry)
    → x ≢ 0
    → GivesUp x es [] (force answers es)
unfolding force
force-GivesUp x answers es real =
    let (es', calls, all) = poll_until answers es in
    let (es'', rest) = kill_all es' in
    GivesUp-append x es es [] (terminate_all es) (calls ++ (rest ++ free_all es''))
      (terminate-GivesUp x es)
      (GivesUp-append x es es' [] calls (rest ++ free_all es'') (until-GivesUp x answers es real) (
        GivesUp-append x es' es'' [] rest (free_all es'') (kill-GivesUp x es' real)
          (free-GivesUp x es'' real)))

-- Whatever the workers do in the rounds before the deadlines: shutting all entries down acquires
-- nothing, closes each of their descriptors, reaps each of their processes and removes each of their
-- event sources once.
pub shutdown_entries-GivesUp :
    (x : ℕ) (grace term : List (ℕ → Bool)) (es : List Entry)
    → x ≢ 0
    → GivesUp x es [] (shutdown_entries grace term es)
unfolding shutdown_entries
shutdown_entries-GivesUp x grace term es real =
    let (es', asks) = ask_all es in
    let (es'', calls, all) = poll_until grace es' in
    let last = (if all then free_all es'' else force term es'') in
    GivesUp-append x es es' [] asks (calls ++ last) (ask-GivesUp x es) (
      GivesUp-append x es' es'' [] calls last (until-GivesUp x grace es' real) (
        if_elim (GivesUp x es'' []) all (λ _. free-GivesUp x es'' real)
          (λ _. force-GivesUp x term es'' real)))
