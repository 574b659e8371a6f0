-- ===== src/System/Sound.antt =====
-- The daemon, libfuse and a backend keep the promises that the driver relies on.
use ukfs_fuse.Common.{
  ℕ, suc, ◌+◌, ◌<◌, ◌≡◌, ◌∙◌, sym, refl, inl, inr, Bool, true, false, Option, none, some, arith,
  Exec, ok, ◌>>=◌, >>=-eq-ok, is_nonzero, subst, ok-injective, Mem, malloc, malloc-live, given,
}
use ukfs_fuse.Request.{Request, Input, new_request, owned}
use ukfs_fuse.Daemon.{Buffer, DispatchEntry, dispatch_table, find_entry, reset_header, fill_message}
use ukfs_fuse.Daemon.Loop.{Round, serve_entry, serve}
use ukfs_fuse.Libfuse.{Call, Session, checked_call, start_call, fuse_session_process_buf_internal}
use ukfs_fuse.Libfuse.Answered.{answers, started}
use ukfs_fuse.Hello.Answers.{hello_session}
use ukfs_fuse.Hello.AnyMessage.{checked_any}
use ukfs_fuse.Libfuse.Messages.{AnswersOrFaults}
use ukfs_fuse.Perf.AnyMessage.{perf_session, perf_checked_any}
use ukfs_fuse.Driver.Balance.{IsSound}
use ukfs_fuse.System.{submit_to, submit_to_lem, daemon_channel}

-- What a request and the heap are like when it is handed back.
pub record IsReturned (live : ℕ) (req : Request) (m : Mem) : Type 0 where
  pub balanced : m.live ≡ live + owned req.reply_data
  pub consistent : is_nonzero req.error ≡ true → req.reply_data ≡ none

of_ok :
    (live : ℕ) {q r : Request × Mem}
    → ok q ≡ ok r
    → IsReturned live q.0 q.1
    → IsReturned live r.0 r.1
of_ok live h = subst (λ p. IsReturned live p.0 p.1) (ok-injective h)

module _ (opcode unique : ℕ) (i : Input) where
  abbrev asked : Request
  asked = new_request opcode unique i

  answered-IsReturned :
      (m : Mem) (live : ℕ) (x : Exec Call) (r : Request × Mem)
      → m.live ≡ suc live
      → AnswersOrFaults asked m x
      → (x >>= λ c. ok (c.request, c.mem)) ≡ ok r
      → IsReturned live r.0 r.1
  answered-IsReturned m live x r l (inl e) h = ground (arith, h, e)
  answered-IsReturned m live x r l (inr (answers d e a)) h =
      of_ok live {q = (d.request, d.mem)} (rw e at h)
        (record { balanced = omega (arith, a.balanced); consistent = a.consistent })

-- A session whose backend answers at most once, and exactly once where nothing crashes.
abbrev pub AnswersOnce : Session → Type 0
AnswersOnce se =
    (req : Request) (m : Mem)
    → 0 < m.live
    → (b : Buffer) → AnswersOrFaults req m (checked_call se (started req m) b)

module _ (se : Session) (any : AnswersOnce se) (opcode unique : ℕ) (i : Input) where
  start_call-IsReturned :
      (b : Buffer) (live : ℕ) (a : Bool × Mem) (r : Request × Mem)
      → a.1.live ≡ live + given a.0
      → start_call se b (asked opcode unique i) a ≡ ok r
      → IsReturned live r.0 r.1
  unfolding start_call
  start_call-IsReturned b live (false, m) r l h =
      of_ok live {q = (asked opcode unique i, m)} h
        (record { balanced = omega (arith, l); consistent = λ e. refl })
  start_call-IsReturned b live (true, m) r l h =
      answered-IsReturned opcode unique i m live _ r (omega (arith, l))
        (any (asked opcode unique i) m (omega (arith, l)) b) h

  serve_entry-IsReturned :
      (b : Buffer) (m : Mem) (de : Option DispatchEntry) (r : Round)
      → serve_entry se b (asked opcode unique i) m de ≡ ok r
      → IsReturned m.live r.1 r.2
  unfolding serve_entry fuse_session_process_buf_internal
  serve_entry-IsReturned b m none r h =
      subst (λ p. IsReturned m.live p.1 p.2) (ok-injective h)
        (record { balanced = omega arith; consistent = λ e. refl })
  serve_entry-IsReturned b m (some de) r h =
      let (b', e, k) = >>=-eq-ok (fill_message de b (asked opcode unique i)) _ h in
      let (q, e', k') = >>=-eq-ok (start_call se b' (asked opcode unique i) (malloc m)) _ k in
      subst (λ p. IsReturned m.live p.1 p.2) (ok-injective k')
        (start_call-IsReturned b' m.live (malloc m) q (malloc-live m) e')

  submit_to-IsReturned :
      (b : Buffer) (m : Mem) (r : Request × Buffer × Mem)
      → submit_to se (asked opcode unique i) b m ≡ ok r
      → IsReturned m.live r.0 r.2
  unfolding serve
  submit_to-IsReturned b m r h =
      let (q, e, k) =
        >>=-eq-ok (serve se b (asked opcode unique i) m) (λ q. ok (q.1, q.0, q.2))
          (sym (submit_to_lem se (asked opcode unique i) b m) ∙ h) in
      subst (λ p. IsReturned m.live p.0 p.2) (ok-injective k)
        (serve_entry-IsReturned (reset_header b (asked opcode unique i)) m
          (find_entry dispatch_table opcode) q e)

-- Whatever the backend, as long as it answers a request exactly once where nothing crashes.
channel-IsSound : (se : Session) → AnswersOnce se → IsSound (daemon_channel se)
channel-IsSound se any = record {
  balanced =
      λ opcode unique i b m r h. (submit_to-IsReturned se any opcode unique i b m r h).balanced;
  consistent =
      λ opcode unique i b m r h. (submit_to-IsReturned se any opcode unique i b m r h).consistent;
}

-- Whatever request is submitted to the daemon with the hello_ll backend and whatever malloc
-- refuses, if it comes back then the data of the answer is the only block that is left, and an
-- answer with an error has no data.
pub hello_channel-IsSound : IsSound (daemon_channel hello_session)
hello_channel-IsSound = channel-IsSound hello_session checked_any

-- Whatever request is submitted to the daemon with the backend of the performance tests and
-- whatever malloc refuses, if it comes back then the data of the answer is the only block that is
-- left, and an answer with an error has no data.
pub perf_channel-IsSound : IsSound (daemon_channel perf_session)
perf_channel-IsSound = channel-IsSound perf_session perf_checked_any
