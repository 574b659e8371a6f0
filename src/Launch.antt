-- ===== src/Launch.antt =====
-- `main` of apps/fuse-correctness-test/hello_ll.c and of apps/fuse-perf-test/hello_ll.c: a session is
-- made and mounted, and the thread waits in `fuse_session_loop`.
use ukfs_fuse.Common.{
  ℕ, suc, ◌≡◌, Bool, true, false, not, Option, some, if◌then◌else◌, Mem, malloc, free,
}
use ukfs_fuse.Libfuse.{LowlevelOps, Session, fuse_session_new_versioned, fuse_session_mount}
use ukfs_fuse.Hello.{hello_ll_oper}
use ukfs_fuse.Perf.{perf_ll_oper}

-- What `fuse_parse_cmdline` of the bundled libfuse finds on the command line.
pub record Options : Type 0 where
  pub show_help : Bool
  pub show_version : Bool
  pub mountpoint : Bool
  pub singlethread : Bool

-- `fuse_registered_session`, whether its block has been freed, whether descriptor 0 is open, and the
-- heap without the strings of the command line.
pub record Host : Type 0 where
  pub registered : Option Session
  pub dangling : Bool
  pub stdin_open : Bool
  pub mem : Mem

-- Where `main` comes to: it waits in `fuse_session_loop`, or returns its exit status.
pub data Outcome : Type 0 where
  waiting : Host → Outcome
  exited : ℕ → Host → Outcome

-- `fuse_session_destroy` frees the session, whose `fd` is 0 from `calloc`, so descriptor 0 is closed.
-- The registered session is not forgotten.
unfoldable pub fuse_session_destroy : Host → Host
unfolding free
fuse_session_destroy h = record h { dangling = true; stdin_open = false; mem = free h.mem }

-- The signal handlers and `fuse_session_mount` return 0 here, and the result of `fuse_daemonize` is
-- ignored. `fuse_session_loop_mt` returns -1.
unfoldable pub run_session : Options → Session → Host → Outcome
unfolding fuse_session_mount fuse_session_destroy
run_session opts se h =
    let h' = record h { registered = fuse_session_mount h.registered se; dangling = false } in
    if opts.singlethread then waiting h' else exited 1 (fuse_session_destroy h')

unfoldable pub with_session : LowlevelOps → Options → Host → Bool × Mem → Outcome
unfolding run_session
with_session op opts h (false, m) = exited 1 (record h { mem = m })
with_session op opts h (true, m) =
    run_session opts (fuse_session_new_versioned op) (record h { mem = m })

-- `parsed`: whether `fuse_parse_cmdline` returns 0.
unfoldable pub main_with : LowlevelOps → Bool → Options → Host → Outcome
unfolding with_session malloc
main_with op parsed opts h =
    if not parsed
    then exited 1 h
    else if opts.show_help
    then exited 0 h
    else if opts.show_version
    then exited 0 h
    else if not opts.mountpoint
    then exited 1 h
    else with_session op opts h (malloc h.mem)

unfoldable pub hello_main : Bool → Options → Host → Outcome
unfolding main_with
hello_main = main_with hello_ll_oper

unfoldable pub perf_main : Bool → Options → Host → Outcome
unfolding main_with
perf_main = main_with perf_ll_oper

-- The command line that `main` serves.
pub record Serves (parsed : Bool) (opts : Options) : Type 0 where
  pub well_formed : parsed ≡ true
  pub no_help : opts.show_help ≡ false
  pub no_version : opts.show_version ≡ false
  pub has_mountpoint : opts.mountpoint ≡ true

-- Why `main` returns without a session, and its exit status.
pub data Declines (parsed : Bool) (opts : Options) (m : Mem) : ℕ → Type 0 where
  malformed : parsed ≡ false → Declines parsed opts m 1
  helped : parsed ≡ true → opts.show_help ≡ true → Declines parsed opts m 0
  told_version :
      parsed ≡ true → opts.show_help ≡ false → opts.show_version ≡ true → Declines parsed opts m 0
  nowhere :
      parsed ≡ true
      → opts.show_help ≡ false
      → opts.show_version ≡ false
      → opts.mountpoint ≡ false
      → Declines parsed opts m 1
  no_memory : Serves parsed opts → (malloc m).0 ≡ false → Declines parsed opts m 1

-- What `main` may come to. Waiting, it has its session registered, in one new block. Having
-- returned, it has freed what it allocated, and either has had a reason not to register a session, or
-- has left its freed session registered and closed descriptor 0.
pub data IsLaunched (op : LowlevelOps) (parsed : Bool) (opts : Options) (h : Host)
    : Outcome → Type 0 where
  serves :
      (h' : Host)
      → Serves parsed opts
      → opts.singlethread ≡ true
      → h'.registered ≡ some (fuse_session_new_versioned op)
      → h'.dangling ≡ false
      → h'.stdin_open ≡ h.stdin_open
      → h'.mem.live ≡ suc h.mem.live
      → IsLaunched op parsed opts h (waiting h')
  declines :
      {code : ℕ} (h' : Host)
      → Declines parsed opts h.mem code
      → h'.registered ≡ h.registered
      → h'.dangling ≡ h.dangling
      → h'.stdin_open ≡ h.stdin_open
      → h'.mem.live ≡ h.mem.live
      → IsLaunched op parsed opts h (exited code h')
  dangles :
      (h' : Host)
      → Serves parsed opts
      → opts.singlethread ≡ false
      → h'.registered ≡ some (fuse_session_new_versioned op)
      → h'.dangling ≡ true
      → h'.stdin_open ≡ false
      → h'.mem.live ≡ h.mem.live
      → IsLaunched op parsed opts h (exited 1 h')
