-- ===== src/Examples/Systems.antt =====
-- libs/ukfusefs/ukfs-fuse.c down to the backends of apps/fuse-correctness-test and
-- apps/fuse-perf-test, and how their `main` starts them.
use ukfs_fuse.Common.{
  ℕ, ◌≡◌, refl, true, false, none, [], ◌∷◌, ◌++◌, replicate, arith, ok, ◌>>=◌, malloc, some,
  c_string, ◌+◌, blocked, pos,
}
use ukfs_fuse.Request.{new_request, read, getattr, lookup}
use ukfs_fuse.Daemon.{Buffer}
use ukfs_fuse.Daemon.Wire.{message}
use ukfs_fuse.Daemon.Direct.{start_direct}
use ukfs_fuse.Libfuse.{checked_call}
use ukfs_fuse.Daemon.{fuse_read}
use ukfs_fuse.Libfuse.Messages.{EndsWell, asks_read}
use ukfs_fuse.Libfuse.Answered.{started}
use ukfs_fuse.Hello.{hello_name, direntry}
use ukfs_fuse.Hello.Answers.{hello_session, unrefused}
use ukfs_fuse.Perf.AnyMessage.{perf_session, perf_checked-EndsWell}
use ukfs_fuse.Launch.{Options, Host}
use ukfs_fuse.Driver.{wait_done, send, World}
use ukfs_fuse.Driver.Read.{ReadResult, fusefs_read}
use ukfs_fuse.System.{daemon_channel}
use ukfs_fuse.System.Answer.{quiet, hello-IsReady, read_payload}
use ukfs_fuse.System.Delivery.{asked_once, request_for, send-direct, send-blocked}
use ukfs_fuse.System.Reading.{IsRead, hello_file, fusefs_read-hello}
use ukfs_fuse.Driver.File.{fresh_file}
use ukfs_fuse.Driver.Attr.{Statx, fusefs_getstat, fusefs_lookup, stop_file, child}
use ukfs_fuse.Driver.Dir.{fusefs_listdir, decode_reply}
use ukfs_fuse.Driver.Mount.{Mount, IsOpened, fusefs_vopen, fusefs_vopen-IsOpened}
use ukfs_fuse.Queue.{fuse_ukfs_queue_init}
use ukfs_fuse.System.Attributes.{after, hello_statx, fusefs_getstat-hello, fusefs_lookup-hello}
use ukfs_fuse.System.Entry.{decode_reply-direntry}
use ukfs_fuse.System.Listing.{hello, entry_or_einval, listed, fusefs_listdir-entry}
use ukfs_fuse.Perf.{perf_ll_getattr, perf_ll_lookup, perf_ll_read}
use ukfs_fuse.Perf.Listing.{linux_dirents, linux_dirents-decode, at_hello}
use ukfs_fuse.Perf.Linux.{
  bundled, cached, linux_ll_getattr, linux_ll_lookup, linux_ll_read, linux_same,
}

abbrev buffer : ℕ → Buffer
buffer n = record {
  header = record { len = 0; opcode = 0; unique = 0; nodeid = 0; uid = 0; gid = 0; pid = 0 };
  body = replicate n 255;
}

send-direct_example :
    send (daemon_channel hello_session) 4 (read 2 0 6 6) (quiet 5 0 (buffer 48) []) ≡ (
      start_direct hello_session
        (read 2 0 6 6)
        (request_for (quiet 5 0 (buffer 48) []) (read 2 0 6 6))
        (malloc (unrefused 0))
      >>= λ (req, m).
          wait_done
            (asked_once (quiet 5 0 (buffer 48) []))
            (req, message (buffer 48) 5 (read 2 0 6 6), m))
send-direct_example =
    send-direct hello_session hello-IsReady (quiet 5 0 (buffer 48) []) (read 2 0 6 6)
      (omega arith, omega arith, omega arith) (omega (arith, read_payload 0 6 6))
      (omega (arith, read_payload 0 6 6))

fusefs_read-hello_example :
    (out : ReadResult Buffer) × (fusefs_read
        (daemon_channel hello_session)
        (hello_file 0)
        (replicate 4 0 ∷ replicate 8 0 ∷ [])
        6
        (quiet 5 0 (buffer 48) [])
      ≡ ok out)
    × IsRead (replicate 4 0 ∷ replicate 8 0 ∷ []) 6 out
fusefs_read-hello_example =
    fusefs_read-hello 5 0 (buffer 48) [] 0 (replicate 4 0 ∷ replicate 8 0 ∷ []) 6 (omega arith)
      (omega arith) (omega arith) (omega arith)

perf_checked-EndsWell_example : EndsWell fuse_read (new_request 4 1 (read 3 0 6 6)) (unrefused 1) (
    checked_call perf_session
      (started (new_request 4 1 (read 3 0 6 6)) (unrefused 1))
      (message (buffer 48) 1 (read 3 0 6 6)))
perf_checked-EndsWell_example =
    perf_checked-EndsWell (new_request 4 1 (read 3 0 6 6)) (unrefused 1) (omega arith)
      (message (buffer 48) 1 (read 3 0 6 6)) asks_read

abbrev foreground : Options
foreground = record {
  show_help = false;
  show_version = false;
  mountpoint = true;
  singlethread = true;
}

abbrev no_session : Host
no_session = record { registered = none; dangling = false; stdin_open = true; mem = unrefused 0 }

abbrev refusing : World Buffer
refusing = record {
  fuse_req_unique = 5;
  mem = record { refusals = true ∷ []; live = 0 };
  chan = buffer 48;
  calls = [];
}

send-blocked_example : send (daemon_channel hello_session) 4 (read 2 0 6 6) refusing ≡ blocked
unfolding malloc
send-blocked_example =
    send-blocked hello_session hello-IsReady refusing (read 2 0 6 6)
      (omega arith, omega arith, omega arith) (omega (arith, read_payload 0 6 6))
      (omega (arith, read_payload 0 6 6)) refl

abbrev unmounted : Mount
unmounted = record { fuse_global_queue = fuse_ukfs_queue_init; daemons = []; mem = unrefused 0 }

fusefs_vopen-IsOpened_example :
    IsOpened true false
      (some hello_session)
      unmounted
      (malloc (unrefused 0)).1
      (fusefs_vopen true false (some hello_session) unmounted)
fusefs_vopen-IsOpened_example = fusefs_vopen-IsOpened unmounted true false (some hello_session)

abbrev no_attributes : Statx
no_attributes = record {
  stx_mask = 0;
  stx_mode = 0;
  stx_size = 0;
  stx_ino = 0;
  stx_nlink = 0;
  stx_uid = 0;
  stx_gid = 0;
}

fusefs_getstat-hello_example :
    fusefs_getstat
      (daemon_channel hello_session)
      0x306
      (fresh_file 2)
      no_attributes
      (quiet 5 0 (buffer 48) [])
    ≡ ok (pos 0, hello_statx 0x306, after 5 0 (buffer 48) [] (getattr 2))
fusefs_getstat-hello_example =
    fusefs_getstat-hello 5 0 (buffer 48) [] 0x306 (fresh_file 2) no_attributes (omega arith)

fusefs_lookup-hello_example :
    fusefs_lookup
      (daemon_channel hello_session)
      (fresh_file 1)
      hello_name
      (quiet 5 0 (buffer 48) [])
    ≡ ok (stop_file (child (fresh_file 2)) 5, after 5 1 (buffer 48) [] (lookup 1 hello_name))
unfolding c_string
fusefs_lookup-hello_example =
    fusefs_lookup-hello 5 0 (buffer 48) [] (fresh_file 1) hello_name refl (omega arith)
      (omega arith)

fusefs_listdir-entry_example :
    fusefs_listdir
      (λ namelen. 27 + namelen)
      (daemon_channel hello_session)
      (fresh_file 1)
      64
      256
      (quiet 5 0 (buffer 48) [])
    ≡ ok (
        entry_or_einval
          (λ namelen. 27 + namelen)
          256
          (listed 5 0 (buffer 48) [] (omega arith) 0 64)
          64
          96
          hello_name
          2)
fusefs_listdir-entry_example =
    fusefs_listdir-entry (λ namelen. 27 + namelen) 256 5 0 (buffer 48) [] (omega arith) hello

linux_same_example :
    (linux_ll_getattr bundled (started (new_request 4 1 (read 3 0 6 6)) (unrefused 1)) 3 none
      ≡ perf_ll_getattr (started (new_request 4 1 (read 3 0 6 6)) (unrefused 1)) 3 none)
    × (linux_ll_lookup cached (started (new_request 4 1 (read 3 0 6 6)) (unrefused 1)) 1 hello_name
        ≡ perf_ll_lookup 31 (started (new_request 4 1 (read 3 0 6 6)) (unrefused 1)) 1 hello_name)
    × (linux_ll_read bundled
          (started (new_request 4 1 (read 3 0 6 6)) (unrefused 1))
          3
          6
          (pos 6)
          (record { flags = 0; fh = 0 })
        ≡ perf_ll_read
            (started (new_request 4 1 (read 3 0 6 6)) (unrefused 1))
            3
            6
            (pos 6)
            (record { flags = 0; fh = 0 }))
linux_same_example =
    linux_same (started (new_request 4 1 (read 3 0 6 6)) (unrefused 1)) 3 1 6 hello_name (pos 6)
      (record { flags = 0; fh = 0 })

decode_reply-direntry_example :
    decode_reply
      (λ n. n + 24)
      0
      64
      (quiet 5 0 (buffer 48) [])
      (direntry hello_name 2 0 96 ++ (7 ∷ []))
    ≡ ok (record {
      ret = pos 29;
      cursor = 96;
      out = some (record { d_ino = 2; d_off = 96; d_reclen = 29; d_type = 0; d_name = hello_name });
      world = quiet 5 0 (buffer 48) [];
    })
decode_reply-direntry_example =
    decode_reply-direntry hello_name 2 0 96 (7 ∷ []) (λ n. n + 24) 0 64 (quiet 5 0 (buffer 48) [])
      (omega arith) (omega arith) (omega arith) (omega arith) (omega arith)

linux_dirents-decode_example :
    decode_reply (λ n. n + 24) 2 64 (quiet 5 0 (buffer 48) []) (linux_dirents 4096 2)
    ≡ ok (record {
      ret = pos 29;
      cursor = 3;
      out = some (record { d_ino = 2; d_off = 3; d_reclen = 29; d_type = 8; d_name = hello_name });
      world = quiet 5 0 (buffer 48) [];
    })
linux_dirents-decode_example =
    linux_dirents-decode (λ n. n + 24) 64 (quiet 5 0 (buffer 48) []) 4096 2
      (record { name = hello_name; ino = 2; kind = 8 }) at_hello (omega arith) (omega arith)
