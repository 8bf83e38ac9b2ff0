-- ===== src/Ipc/Passing.antt =====
-- Descriptors passed over a socket, from `sbs_ipc_send_frame2` to `sbs_ipc_recv_frame2`.
use sbs_server.Prelude.{
  ℕ, if_elim, ==_iff, ◌+◌, ◌≡◌, ◌≢◌, refl, true, not, Option, none, some, List, [], ◌∷◌, arith,
  ◌==◌,
}
use sbs_server.Effects.{Effect}
use sbs_server.Effects.Ledger.{tally, tally-append, holds, is_it, closed}
use sbs_server.Ipc.Transport.{
  VideoFrame, Call, eagain, Cmsg, RecvResult, failed, read, ok, Received, SendResult, wrote,
  frame_size, sent_fds, sent_rc, send_frame2, taken_fds, first_rights, close_each, close_all,
  recv_done, recv_frame2,
}

-- The control messages for descriptors that were sent along.
abbrev pub rights_of : List ℕ → List Cmsg
rights_of [] = []
rights_of (fd ∷ fds) = record { rights = true; fds = fd ∷ fds } ∷ []

-- The other end of a socket reads what was handed to `sendmsg`, and waits if nothing was.
abbrev pub delivers : Option Call → ℕ → RecvResult
delivers none peer = failed eagain
delivers (some call) peer = read frame_size call.msg (rights_of call.fds)

abbrev pub second_of : Option ℕ → Option ℕ → Option ℕ
second_of none fd2 = none
second_of (some fd) fd2 = fd2

-- Where `sendmsg` takes every message whole and the other end reads what `sendmsg` was handed: a frame
-- that is sent arrives; both calls succeed, the frame is the same, and the descriptors are those sent,
-- but that a second one without a first is not sent.
pub recv_frame2-send_frame2 :
    (sendmsg : Call → SendResult) (sock peer : ℕ) (msg : VideoFrame) (fd fd2 : Option ℕ)
    → ((call : Call) → sendmsg call ≡ wrote frame_size)
    → let (rc, call) = send_frame2 sendmsg (some sock) msg fd fd2 in
      (rc ≡ ok)
      × (recv_frame2 (delivers call) (some peer) true
          ≡ (record { rc = ok; frame = some msg; fd = fd; fd2 = second_of fd fd2 }, []))
unfolding send_frame2 sent_rc sent_fds recv_frame2 recv_done first_rights taken_fds
recv_frame2-send_frame2 sendmsg sock peer msg none fd2 whole = (rw (whole _) refl, refl)
recv_frame2-send_frame2 sendmsg sock peer msg (some fd) none whole = (rw (whole _) refl, refl)
recv_frame2-send_frame2 sendmsg sock peer msg (some fd) (some fd2) whole = (rw (whole _) refl, refl)

-- How often a descriptor comes with a list of control messages.
abbrev pub occurs : ℕ → List ℕ → ℕ
occurs x [] = 0
occurs x (fd ∷ fds) = is_it x fd + occurs x fds

abbrev pub arrived : ℕ → RecvResult → ℕ
arrived x (failed e) = 0
arrived x (read n msg []) = 0
arrived x (read n msg (c ∷ cs)) = occurs x c.fds

-- The buffer for control messages has room for one with two descriptors.
abbrev Few : List ℕ → Type 0
Few (a ∷ b ∷ c ∷ fds) = ⊥
Few _ = Unit {0}

abbrev pub Fits : RecvResult → Type 0
Fits (failed e) = Unit {0}
Fits (read n msg []) = Unit {0}
-- nothing is read only at the end of the stream
Fits (read n msg (c ∷ [])) = (c.rights ≡ true) × Few c.fds × (n ≢ 0)
Fits (read n msg (c ∷ c' ∷ cs)) = ⊥

closed-close_each : (x : ℕ) (fds : List ℕ) → tally (closed x) (close_each fds) ≡ occurs x fds
unfolding close_each
closed-close_each x [] = refl
closed-close_each x (fd ∷ fds) = omega (arith, closed-close_each x fds)

closed-close_all :
    (x : ℕ) (c : Cmsg) → c.rights ≡ true → tally (closed x) (close_all (c ∷ [])) ≡ occurs x c.fds
unfolding close_all
closed-close_all x c e =
    rw e (omega (arith, tally-append (closed x) (close_each c.fds) [], closed-close_each x c.fds))

taken_all :
    (x : ℕ) (fds : List ℕ)
    → Few fds
    → holds x (taken_fds true fds).0 + holds x (taken_fds true fds).1 ≡ occurs x fds
unfolding taken_fds
taken_all x [] h = refl
taken_all x (a ∷ []) h = omega arith
taken_all x (a ∷ b ∷ []) h = omega arith
taken_all x (a ∷ b ∷ c ∷ fds) h = elim h [ ]

-- The descriptors that are given on or closed are as many as `k`.
abbrev pub Accounts : ℕ → ℕ → Received × List Effect → Type 0
Accounts x k r = holds x r.0.fd + holds x r.0.fd2 + tally (closed x) r.1 ≡ k

first_rights-fds : (c : Cmsg) → c.rights ≡ true → first_rights true (c ∷ []) ≡ taken_fds true c.fds
unfolding first_rights
first_rights-fds c e = rw e refl

recv_done-Accounts : (x : ℕ) (r : RecvResult) → Fits r → Accounts x (arrived x r) (recv_done true r)
unfolding recv_done
recv_done-Accounts x (failed e) h = refl
recv_done-Accounts x (read n msg []) h =
    if_elim (Accounts x 0) (n == 0) (λ _. refl)
      (λ _. if_elim (Accounts x 0) (not (n == frame_size)) (λ _. refl) (λ _. refl))
recv_done-Accounts x (read n msg (c ∷ [])) h =
    if_elim (Accounts x (occurs x c.fds)) (n == 0) (λ e. absurd (h.2 ((==_iff n 0).0 e)))
      (λ _.
        if_elim (Accounts x (occurs x c.fds)) (not (n == frame_size))
          (λ _. omega (arith, closed-close_all x c h.0))
          (λ _. rw (first_rights-fds c h.0) (omega (arith, taken_all x c.fds h.1))))
recv_done-Accounts x (read n msg (c ∷ c' ∷ cs)) h = elim h [ ]

-- Where the kernel gives at most one control message, with at most two descriptors and only with
-- bytes, every descriptor that arrives is either given to the caller or closed, and none is both.
pub recv_frame2-Accounts :
    (recvmsg : ℕ → RecvResult) (sock x : ℕ)
    → Fits (recvmsg sock)
    → Accounts x (arrived x (recvmsg sock)) (recv_frame2 recvmsg (some sock) true)
unfolding recv_frame2
recv_frame2-Accounts recvmsg sock x h = recv_done-Accounts x (recvmsg sock) h
