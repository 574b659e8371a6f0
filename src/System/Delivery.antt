-- ===== src/System/Delivery.antt =====
-- What the driver asks for reaches the backend: a request of libs/ukfusefs/ukfs-fuse.c, through the
-- queue, the daemon and libfuse.
use ukfs_fuse.Common.{
  Bool, true, false, blocked, Mem, ◌∙◌, refl, ◌+◌, ◌%◌, ◌^◌, ◌≤◌, ◌<◌, ◌≡◌, length, ◌>>=◌,
  >>=_assoc, malloc,
}
use ukfs_fuse.Request.{Request, Input, new_request}
use ukfs_fuse.Daemon.{Buffer, header_size}
use ukfs_fuse.Daemon.Wire.{payload, message, opcode_of}
use ukfs_fuse.Daemon.Direct.{InRange, IsReady, start_direct, serve-direct}
use ukfs_fuse.Libfuse.{Session}
use ukfs_fuse.Driver.{World, wait_done, send}
use ukfs_fuse.System.{submit_to_lem, daemon_channel}

-- The world when a request has been made, the answer not yet awaited.
abbrev pub asked_once : World Buffer → World Buffer
asked_once w = record w { fuse_req_unique = (w.fuse_req_unique + 1) % 2 ^ 64 }

-- The request that the driver makes for `i`.
abbrev pub request_for : World Buffer → Input → Request
request_for w i = new_request (opcode_of i) w.fuse_req_unique i

module _ (se : Session) (ready : IsReady se) (w : World Buffer) (i : Input) where
  -- In a session that is set up, what the driver gets for a request whose fields are in range and
  -- that fits in the daemon's buffer is what the handler of the backend makes of the same fields;
  -- the driver waits on the semaphore that the handler raises.
  pub send-direct :
      InRange i
      → length (payload i) ≤ length w.chan.body
      → header_size + length (payload i) < 2 ^ 32
      → send (daemon_channel se) (opcode_of i) i w ≡ (
          start_direct se i (request_for w i) (malloc w.mem) >>= λ (req, m).
          wait_done (asked_once w) (req, message w.chan w.fuse_req_unique i, m))
  unfolding send
  send-direct h room small =
      rw
        (
          submit_to_lem se (request_for w i) w.chan w.mem,
          serve-direct se ready w.chan w.fuse_req_unique i w.mem h room small,
          >>=_assoc (start_direct se i (request_for w i) (malloc w.mem)),
        )
        (>>=_assoc (start_direct se i (request_for w i) (malloc w.mem)) _ _)

  unanswered :
      (r : Bool × Mem)
      → r.0 ≡ false
      → (start_direct se i (request_for w i) r >>= λ (req, m).
          wait_done (asked_once w) (req, message w.chan w.fuse_req_unique i, m))
        ≡ blocked
  unfolding wait_done
  unanswered (false, m) h = refl
  unanswered (true, m) h = cc

  -- In a session that is set up, where malloc refuses libfuse the fuse_req for a request whose
  -- fields are in range and that fits in the daemon's buffer, the request is never answered and the
  -- driver waits for ever.
  pub send-blocked :
      InRange i
      → length (payload i) ≤ length w.chan.body
      → header_size + length (payload i) < 2 ^ 32
      → (malloc w.mem).0 ≡ false
      → send (daemon_channel se) (opcode_of i) i w ≡ blocked
  send-blocked h room small refused = send-direct h room small ∙ unanswered (malloc w.mem) refused
