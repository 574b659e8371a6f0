-- ===== src/Examples/Callers.antt =====
-- Two callers of the hello_ll backend, and the casts of the driver.
use ukfs_fuse.Common.{
  ◌⊎◌, ◌≤◌, ◌≡◌, refl, ap, ◌∙◌, arith, [], ◌∷◌, none, some, length, ok, ◌>>=◌, pos, false,
  replicate, c_string,
}
use ukfs_fuse.Request.{Request, getattr, attr, new_request, zero_stat, fuse_ukfs_getattr}
use ukfs_fuse.Queue.{fuse_ukfs_queue_init, fuse_ukfs_queue_push, fuse_ukfs_queue_pop, remove_first}
use ukfs_fuse.Daemon.{Buffer}
use ukfs_fuse.Daemon.Wire.{message}
use ukfs_fuse.Daemon.Direct.{serve-direct}
use ukfs_fuse.Daemon.Loop.{serve}
use ukfs_fuse.Libfuse.{answer, stat_size}
use ukfs_fuse.Hello.{hello_stat}
use ukfs_fuse.Hello.Answers.{hello_session, unrefused}
use ukfs_fuse.System.Answer.{hello-IsReady}
use ukfs_fuse.System.Attributes.{start_getattr, getattr_payload}
use ukfs_fuse.System.Callers.{
  idle, waiting, Office, submit, pops, serves, Works, Reach, opened, submits, works, stopped,
  then_works, work,
}
use ukfs_fuse.Hello.{hello_name}
use ukfs_fuse.Common.{true, false, fault, ◌≢◌}
use ukfs_fuse.Driver.{World, no_fh, wait_done}
use ukfs_fuse.Driver.Attr.{Statx, fusefs_getstat, fusefs_lookup}
use ukfs_fuse.Driver.Read.{fusefs_do_open, fusefs_read}
use ukfs_fuse.System.{daemon_channel}
use ukfs_fuse.System.Answer.{quiet}
use ukfs_fuse.System.Reading.{hello_file}
use ukfs_fuse.System.Delivery.{asked_once, send-direct}
use ukfs_fuse.System.Kinds.{Fits, send-Fits}
use ukfs_fuse.System.Uncrashed.{operations-uncrashed}
use ukfs_fuse.System.Callers.Invariant.{IsServed, own_answer}
use ukfs_fuse.System.Callers.Progress.{Run-ends}
use ukfs_fuse.System.Callers.Hello.{Servable, servable, of_inode, IsRoomy, hello-Serves}

abbrev buffer : Buffer
buffer = record {
  header = record { len = 0; opcode = 0; unique = 0; nodeid = 0; uid = 0; gid = 0; pid = 0 };
  body = replicate 48 255;
}

-- Caller 1 of two has asked for the attributes of the root.
abbrev asked : Request
asked = new_request fuse_ukfs_getattr 7 (getattr 1)

abbrev told : Request
told = answer asked (pos 0) (some (attr (hello_stat 1 zero_stat).0)) stat_size

abbrev queued_office : Office
queued_office = record {
  callers = idle ∷ waiting asked asked ∷ [];
  queue = record { head = 1 ∷ []; locked = false; count = 1 };
  serving = none;
  unique = 8;
  b = buffer;
  m = unrefused 0;
}

queued_Reach : Reach hello_session (Servable 48) (IsRoomy 48) queued_office
unfolding fuse_ukfs_queue_init fuse_ukfs_queue_push
queued_Reach =
    submits
      (opened 2 7 {b = buffer} {m = unrefused 0}
        (record { roomy = omega arith; small = omega arith; quiet = refl }))
      (submit 1 fuse_ukfs_getattr (getattr 1) refl (servable 7 (getattr 1) (of_inode 1)) refl)

served_root :
    serve hello_session buffer asked (unrefused 0)
    ≡ ok (message buffer 7 (getattr 1), told, unrefused 1)
unfolding hello_stat
served_root =
    serve-direct hello_session hello-IsReady buffer 7 (getattr 1) (unrefused 0) tt
      (omega (arith, getattr_payload 1)) (omega (arith, getattr_payload 1))
    ∙ ap (λ x. x >>= λ (req, m). ok (message buffer 7 (getattr 1), req, m))
        (start_getattr asked 0 1)

abbrev serving_office : Office
serving_office = record queued_office {
  queue = record { head = []; locked = false; count = 0 };
  serving = some 1;
}

abbrev served_office : Office
served_office = record serving_office {
  callers = idle ∷ waiting asked told ∷ [];
  serving = none;
  b = message buffer 7 (getattr 1);
  m = unrefused 1;
}

popped_first : Works hello_session (Servable 48) queued_office serving_office
unfolding fuse_ukfs_queue_pop remove_first
popped_first = pops 1 refl refl

served_first : Works hello_session (Servable 48) serving_office served_office
served_first = serves 1 refl refl served_root

own_answer_example : IsServed hello_session (Servable 48) (IsRoomy 48) asked told
own_answer_example =
    own_answer hello_session (Servable 48) (IsRoomy 48) (hello-Serves 48 (omega arith)) 1 0
      (works (works queued_Reach popped_first) served_first) refl refl

Run-ends_example :
    (2 ≤ work queued_office)
    × (((u : Office) × Works hello_session (Servable 48) served_office u)
        ⊎ ((2 ≡ work queued_office)
            × (served_office.callers ≡ replicate (length served_office.callers) idle)))
Run-ends_example =
    Run-ends hello_session (Servable 48) (IsRoomy 48) (hello-Serves 48 (omega arith)) queued_Reach
      (then_works popped_first (then_works served_first stopped))

abbrev quiet_world : World Buffer
quiet_world = quiet 7 0 buffer []

send-Fits_example : Fits (getattr 1) (attr (hello_stat 1 zero_stat).0)
unfolding hello_stat wait_done
send-Fits_example =
    send-Fits quiet_world (getattr 1) (record told { done = 0 })
      (quiet 8 1 (message buffer 7 (getattr 1)) []) (attr (hello_stat 1 zero_stat).0) tt
      (omega (arith, getattr_payload 1)) (omega (arith, getattr_payload 1))
      (send-direct hello_session hello-IsReady quiet_world (getattr 1) tt
          (omega (arith, getattr_payload 1)) (omega (arith, getattr_payload 1))
        ∙ ap
            (λ x. x >>= λ (req, m).
              wait_done (asked_once quiet_world) (req, message buffer 7 (getattr 1), m))
            (start_getattr asked 0 1))
      refl

abbrev no_statx : Statx
no_statx = record {
  stx_mask = 0;
  stx_mode = 0;
  stx_size = 0;
  stx_ino = 0;
  stx_nlink = 0;
  stx_uid = 0;
  stx_gid = 0;
}

hello_short : length (c_string hello_name) ≡ 5
unfolding c_string
hello_short = refl

-- A world in which the second block asked for is refused.
abbrev refusing_world : World Buffer
refusing_world = record quiet_world { mem = record { refusals = false ∷ true ∷ []; live = 0 } }

operations-uncrashed_example :
    (fusefs_getstat (daemon_channel hello_session) 0x306 (hello_file 0) no_statx refusing_world
      ≢ fault)
    × (fusefs_do_open (daemon_channel hello_session) (hello_file 0) refusing_world ≢ fault)
    × (fusefs_lookup (daemon_channel hello_session) (hello_file 0) hello_name refusing_world
        ≢ fault)
    × (fusefs_read
          (daemon_channel hello_session)
          (hello_file no_fh)
          (replicate 4 0 ∷ [])
          6
          refusing_world
        ≢ fault)
operations-uncrashed_example =
    operations-uncrashed refusing_world (hello_file 0) 0x306 no_statx hello_name (hello_file no_fh)
      (replicate 4 0 ∷ []) 6 (omega arith) (omega arith) (omega (arith, hello_short)) refl
      (omega arith) (omega arith)
