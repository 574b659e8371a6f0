-- ===== src/System/Answer.antt =====
-- apps/fuse-correctness-test/hello_ll.c behind the queue, the daemon and libfuse: what the driver is
-- answered to an open and to a read of the file hello, where malloc refuses nothing.
use ukfs_fuse.Common.{
  ℕ, suc, ◌+◌, ◌-◌, ◌%◌, ◌^◌, ◌≤◌, ◌<◌, ◌≡◌, refl, ◌∙◌, false, none, some, List, [], arith, length,
  length-drop, take, drop, take_all, drop_all, length-take_of_le, dec_lt, le→ltb, take-nil, lt→ltb,
  ok, pos, malloc, free, le,
}
use ukfs_fuse.Request.{
  Request, read, opens, bytes, open_out, new_request, fuse_ukfs_read, fuse_ukfs_open,
}
use ukfs_fuse.Daemon.{Buffer, read_in}
use ukfs_fuse.Daemon.Wire.{payload, message}
use ukfs_fuse.Daemon.Direct.{start_direct, IsReady}
use ukfs_fuse.Libfuse.{
  Call, answer, or_else, fuse_free_req, fuse_reply_buf, answer_buf, answer_open, fuse_reply_open,
  open_out_size, fuse_session_new_versioned,
}
use ukfs_fuse.Libfuse.Answered.{started}
use ukfs_fuse.Hello.{hello_str, hello_ll_read, hello_ll_open, reply_buf_limited}
use ukfs_fuse.Hello.Answers.{hello_session, unrefused}
use ukfs_fuse.Driver.{FileCall, World, wait_done, send}
use ukfs_fuse.System.{daemon_channel}
use ukfs_fuse.System.Delivery.{send-direct}

-- What a read of `size` bytes at `off` has to give.
abbrev pub file_bytes : ℕ → ℕ → List ℕ
file_bytes size off = take size (drop off hello_str)

module _ (req : Request) (live : ℕ) where
  -- The call when the data has been handed over, and the `fuse_req_t` freed.
  abbrev pub handed_over : List ℕ → Call
  handed_over data_ = record {
    request = answer req (pos 0) (some (bytes data_)) (length data_);
    mem = unrefused (suc live);
    alive = false;
  }

  pub reply_part :
      (data_ : List ℕ) (n : ℕ)
      → n ≤ length data_
      → fuse_reply_buf (started req (unrefused (suc live))) (some data_) n
        ≡ ok (handed_over (take n data_))
  unfolding fuse_reply_buf answer_buf fuse_free_req malloc free
  reply_part data_ n h = ground (arith, length-take_of_le n data_ h)

  reply_none : fuse_reply_buf (started req (unrefused (suc live))) none 0 ≡ ok (handed_over [])
  unfolding fuse_reply_buf answer_buf fuse_free_req malloc free
  reply_none = ground arith

  -- `reply_buf_limited` hands over what is left behind the offset, up to the size.
  pub limited_lem :
      (buf : List ℕ) (off size : ℕ)
      → reply_buf_limited (started req (unrefused (suc live))) buf (length buf) (pos off) size
        ≡ ok (handed_over (take size (drop off buf)))
  unfolding reply_buf_limited
  limited_lem buf off size = elim (dec_lt off (length buf)) [
    | yes inside ↦ elim (dec_lt (length buf - off) size) [
      | yes more ↦ rw (
        lt→ltb off (length buf) inside,
        lt→ltb (length buf - off) size more,
        reply_part (drop off buf) (length buf - off) (omega (arith, length-drop off buf)),
        take_all (length buf - off) (drop off buf) (omega (arith, length-drop off buf)),
        take_all size (drop off buf) (omega (arith, length-drop off buf)),
      )
      | no less ↦ rw (
        lt→ltb off (length buf) inside,
        le→ltb (length buf - off) size (omega arith),
        reply_part (drop off buf) size (omega (arith, length-drop off buf)),
      )
    ]
    | no behind ↦
        rw (le→ltb off (length buf) (omega arith), drop_all off buf (omega arith), take-nil size)
          reply_none
  ]

pub start_read :
    (req : Request) (live fh off size : ℕ)
    → off < 2 ^ 63
    → start_direct hello_session (read 2 fh off size) req (malloc (unrefused live))
      ≡ ok ((handed_over req live (file_bytes size off)).request, unrefused (suc live))
unfolding malloc hello_session or_else hello_ll_read
start_read req live fh off size h =
    rw (lt→ltb off (2 ^ 63) h, limited_lem req live hello_str off size)

pub start_open :
    (req : Request) (live : ℕ)
    → start_direct hello_session (opens 2 0) req (malloc (unrefused live))
      ≡ ok (answer req (pos 0) (some (open_out 0)) open_out_size, unrefused (suc live))
unfolding malloc hello_session or_else hello_ll_open fuse_reply_open answer_open fuse_free_req free
start_open req live = ground arith

pub read_payload : (fh off size : ℕ) → length (payload (read 2 fh off size)) ≡ 40
unfolding read_in le
read_payload fh off size = refl

pub open_payload : length (payload (opens 2 0)) ≡ 8
unfolding le
open_payload = refl

pub hello-IsReady : IsReady hello_session
unfolding hello_session fuse_session_new_versioned
hello-IsReady = record { initialised = refl; recent = omega arith }

-- A world in which malloc refuses nothing.
abbrev pub quiet : ℕ → ℕ → Buffer → List FileCall → World Buffer
quiet n live b cs = record { fuse_req_unique = n; mem = unrefused live; chan = b; calls = cs }

-- The answer to a read, and the world in which the driver gets it.
abbrev pub read_answer : ℕ → ℕ → ℕ → ℕ → ℕ → Request
read_answer n live fh off size =
    record (handed_over (new_request fuse_ukfs_read n (read 2 fh off size)) live
      (file_bytes size off)).request { done = 0 }

abbrev pub read_world : ℕ → ℕ → Buffer → List FileCall → ℕ → ℕ → ℕ → World Buffer
read_world n live b cs fh off size =
    quiet ((n + 1) % 2 ^ 64) (suc live) (message b n (read 2 fh off size)) cs

pub send_read :
    (n live : ℕ) (b : Buffer) (cs : List FileCall) (fh off size : ℕ)
    → fh < 2 ^ 64
    → off < 2 ^ 63
    → size < 2 ^ 32
    → 40 ≤ length b.body
    → send (daemon_channel hello_session) fuse_ukfs_read (read 2 fh off size) (quiet n live b cs)
      ≡ ok (read_answer n live fh off size, read_world n live b cs fh off size)
unfolding wait_done
send_read n live b cs fh off size f o s room =
    send-direct hello_session hello-IsReady (quiet n live b cs) (read 2 fh off size)
      (f, omega (arith, o), s) (omega (arith, room, read_payload fh off size))
      (omega (arith, read_payload fh off size))
    ∙ rw (start_read (new_request fuse_ukfs_read n (read 2 fh off size)) live fh off size o)

pub send_open :
    (n live : ℕ) (b : Buffer) (cs : List FileCall)
    → 8 ≤ length b.body
    → send (daemon_channel hello_session) fuse_ukfs_open (opens 2 0) (quiet n live b cs)
      ≡ ok (
        record (new_request fuse_ukfs_open n (opens 2 0)) {
          reply_data = some (open_out 0);
          reply_len = open_out_size;
        },
        quiet ((n + 1) % 2 ^ 64) (suc live) (message b n (opens 2 0)) cs,
      )
unfolding wait_done
send_open n live b cs room =
    send-direct hello_session hello-IsReady (quiet n live b cs) (opens 2 0) (omega arith)
      (omega (arith, room, open_payload)) (omega (arith, open_payload))
    ∙ rw (start_open (new_request fuse_ukfs_open n (opens 2 0)) live)
