-- ===== src/Examples/Daemons.antt =====
-- libs/ukfusefs/fuse_daemon.c and apps/fuse-correctness-test/hello_ll.c: requests that are served.
use ukfs_fuse.Common.{ℕ, ◌≡◌, ◌≤◌, refl, le, replicate, length, arith, ok, fault, ◌>>=◌, malloc}
use ukfs_fuse.Request.{Input, read, lookup, new_request}
use ukfs_fuse.Daemon.{Buffer, read_in}
use ukfs_fuse.Daemon.Loop.{serve}
use ukfs_fuse.Daemon.Wire.{payload, message, serve_overflow}
use ukfs_fuse.Daemon.Direct.{IsReady, start_direct, call_direct, serve-direct}
use ukfs_fuse.Libfuse.{fuse_session_new_versioned, checked_call}
use ukfs_fuse.Libfuse.Answered.{Answers, started}
use ukfs_fuse.Hello.{hello_name}
use ukfs_fuse.Hello.Answers.{hello_session, hello-Answers, unrefused}
use ukfs_fuse.Hello.AnyMessage.{checked-EndsWell}
use ukfs_fuse.Libfuse.Messages.{EndsWell, asks_read}
use ukfs_fuse.Daemon.{fuse_read}

abbrev room : ℕ → Buffer
room n = record {
  header = record { len = 0; opcode = 0; unique = 0; nodeid = 0; uid = 0; gid = 0; pid = 0 };
  body = replicate n 170;
}

abbrev read_hello : Input
read_hello = read 2 0 6 6

hello-IsReady : IsReady hello_session
unfolding hello_session fuse_session_new_versioned
hello-IsReady = record { initialised = refl; recent = omega arith }

short : length (payload read_hello) ≤ 48
unfolding read_in le
short = ground arith

serve-direct_example : serve hello_session (room 48) (new_request 4 1 read_hello) (unrefused 0) ≡ (
    start_direct hello_session read_hello (new_request 4 1 read_hello) (malloc (unrefused 0))
    >>= λ (req, m'). ok (message (room 48) 1 read_hello, req, m'))
serve-direct_example =
    serve-direct hello_session hello-IsReady (room 48) 1 read_hello (unrefused 0)
      (omega arith, omega arith, omega arith) short (omega (arith, short))

serve_overflow_example :
    serve hello_session (room 5) (new_request 1 1 (lookup 1 hello_name)) (unrefused 0) ≡ fault
serve_overflow_example =
    serve_overflow hello_session (room 5) 1 (unrefused 0) (lookup 1 hello_name) (omega arith)

hello-Answers_example :
    Answers
      (new_request 4 1 read_hello)
      (unrefused 1)
      (call_direct hello_session (started (new_request 4 1 read_hello) (unrefused 1)) read_hello)
hello-Answers_example =
    hello-Answers (new_request 4 1 read_hello) (unrefused 1) (omega arith) read_hello
      (refl, omega arith)

checked-EndsWell_example : EndsWell fuse_read (new_request 4 1 read_hello) (unrefused 1) (
    checked_call hello_session
      (started (new_request 4 1 read_hello) (unrefused 1))
      (message (room 48) 1 read_hello))
checked-EndsWell_example =
    checked-EndsWell (new_request 4 1 read_hello) (unrefused 1) (omega arith)
      (message (room 48) 1 read_hello) asks_read
