-- ===== src/System/Attributes.antt =====
-- Attributes and names from end to end: `fusefs_getstat` and `fusefs_lookup` of
-- libs/ukfusefs/ukfs-fuse.c over the queue, the daemon, libfuse and
-- apps/fuse-correctness-test/hello_ll.c.
use ukfs_fuse.Common.{
  ℕ, suc, ◌+◌, ◌%◌, ◌^◌, ◌≤◌, ◌<◌, ◌≡◌, refl, Bool, true, false, none, some, List, [], ◌∷◌, arith,
  length, length-append, le, c_string, c_string-IsCString, not, same_bytes, ◌==◌, ◌&&◌,
  if◌then◌else◌, ok, pos, neg, Mem, malloc, free,
}
use ukfs_fuse.Errno.{enoent}
use ukfs_fuse.Request.{
  Request, Input, getattr, lookup, attr, entry, new_request, zero_stat, entry_of, fuse_ukfs_getattr,
  fuse_ukfs_lookup,
}
use ukfs_fuse.Daemon.{Buffer}
use ukfs_fuse.Daemon.Wire.{payload, message}
use ukfs_fuse.Daemon.Direct.{start_direct}
use ukfs_fuse.Libfuse.{
  answer, or_else, fuse_free_req, fuse_reply_err, fuse_reply_attr, fuse_reply_entry, answer_copy,
  stat_size, entry_param_size,
}
use ukfs_fuse.Hello.{hello_name, hello_stat, hello_ll_getattr, hello_ll_lookup}
use ukfs_fuse.Hello.Answers.{hello_session, unrefused}
use ukfs_fuse.Driver.{FusefsFile, FileCall, World, wait_done}
use ukfs_fuse.Driver.File.{fresh_file, fusefs_file_alloc}
use ukfs_fuse.Driver.Attr.{
  Statx, statx_of, stat_reply, getstat_reply, fusefs_getstat, child, stop_file, failed, child_found,
  entry_reply, lookup_reply, lookup_name, fusefs_lookup,
}
use ukfs_fuse.System.{daemon_channel}
use ukfs_fuse.System.Delivery.{send-direct}
use ukfs_fuse.System.Answer.{hello-IsReady, quiet}

pub getattr_payload : (ino : ℕ) → length (payload (getattr ino)) ≡ 16
unfolding le
getattr_payload ino = refl

-- What the backend makes of an inode: its attributes and a new block, or -ENOENT.
abbrev pub attributes : Request → ℕ → ℕ → Request × Mem
attributes req live ino =
    if (hello_stat ino zero_stat).1
    then (
      answer req (pos 0) (some (attr (hello_stat ino zero_stat).0)) stat_size,
      unrefused (suc live),
    )
    else (answer req (neg enoent) none 0, unrefused live)

pub start_getattr :
    (req : Request) (live ino : ℕ)
    → start_direct hello_session (getattr ino) req (malloc (unrefused live))
      ≡ ok (attributes req live ino)
unfolding malloc hello_session or_else hello_ll_getattr fuse_reply_attr fuse_reply_err answer_copy
    fuse_free_req free
start_getattr req live ino = ground arith

-- What a caller has to see of the root, a directory with the permissions 0755, and of the file hello,
-- readable by all, with the 13 bytes of "Hello World!" and a line feed.
abbrev pub root_statx : ℕ → Statx
root_statx mask = record {
  stx_mask = mask;
  stx_mode = 0o040755;
  stx_size = 0;
  stx_ino = 1;
  stx_nlink = 2;
  stx_uid = 0;
  stx_gid = 0;
}

abbrev pub hello_statx : ℕ → Statx
hello_statx mask = record {
  stx_mask = mask;
  stx_mode = 0o100444;
  stx_size = 13;
  stx_ino = 2;
  stx_nlink = 1;
  stx_uid = 0;
  stx_gid = 0;
}

module _ (n live : ℕ) (b : Buffer) (cs : List FileCall) where
  -- The world after a request for `i`.
  abbrev pub after : Input → World Buffer
  after i = quiet ((n + 1) % 2 ^ 64) live (message b n i) cs

  -- With nothing refused by malloc and a daemon's buffer of at least 16 bytes behind the header,
  -- fusefs_getstat from end to end gives 0 and, for inode 1, the attributes of a directory with the
  -- mode 0755, 2 links and the size 0, for inode 2 those of a regular file with the mode 0444, 1
  -- link and the size 13, each with its inode, the mask, and 0 for owner and group; for any other
  -- inode it gives -ENOENT and leaves the caller's structure alone.
  pub fusefs_getstat-hello :
      (mask : ℕ) (ff : FusefsFile) (arg : Statx)
      → 16 ≤ length b.body
      → fusefs_getstat (daemon_channel hello_session) mask ff arg (quiet n live b cs)
        ≡ ok (
            if ff.nodeid == 1
            then (pos 0, root_statx mask, after (getattr ff.nodeid))
            else if ff.nodeid == 2
            then (pos 0, hello_statx mask, after (getattr ff.nodeid))
            else (neg enoent, arg, after (getattr ff.nodeid)))
  unfolding fusefs_getstat getstat_reply stat_reply statx_of hello_stat wait_done free
  fusefs_getstat-hello mask ff arg room =
      let i = getattr ff.nodeid in
      rw
        (
          send-direct hello_session hello-IsReady (quiet n live b cs) i tt
              (omega (arith, room, getattr_payload ff.nodeid))
              (omega (arith, getattr_payload ff.nodeid)),
          start_getattr (new_request fuse_ukfs_getattr n i) live ff.nodeid,
        )
        (ground arith)

-- A path that the driver asks the backend for: neither empty nor one of the dots.
abbrev pub is_name : List ℕ → Bool
is_name [] = false
is_name (a ∷ []) = not (a == b'.')
is_name (a ∷ c ∷ []) = not (a == b'.' && c == b'.')
is_name _ = true

lookup_asks :
    (ff : FusefsFile) (path : List ℕ) (w : World Buffer)
    → is_name path ≡ true
    → fusefs_lookup (daemon_channel hello_session) ff path w
      ≡ lookup_name (daemon_channel hello_session) ff path w (malloc w.mem)
unfolding fusefs_lookup
lookup_asks ff [] w h = ground (arith, h)
lookup_asks ff (a ∷ []) w h = ground (arith, h)
lookup_asks ff (a ∷ c ∷ []) w h = ground (arith, h)
lookup_asks ff (a ∷ c ∷ d ∷ rest) w h = refl

-- Whether the backend knows a name.
abbrev pub is_hello : ℕ → List ℕ → Bool
is_hello parent name = parent == 1 && same_bytes name hello_name

abbrev pub entry_found : Request → ℕ → ℕ → List ℕ → Request × Mem
entry_found req live parent name =
    if is_hello parent name
    then (
      answer req (pos 0) (some (entry (entry_of 1 2 (hello_stat 2 zero_stat).0))) entry_param_size,
      unrefused (suc live),
    )
    else (answer req (neg enoent) none 0, unrefused live)

pub start_lookup :
    (req : Request) (live parent : ℕ) (name : List ℕ)
    → start_direct hello_session (lookup parent name) req (malloc (unrefused live))
      ≡ ok (entry_found req live parent name)
unfolding malloc hello_session or_else hello_ll_lookup fuse_reply_entry fuse_reply_err answer_copy
    fuse_free_req free
start_lookup req live parent name = ground arith

module _ (n live : ℕ) (b : Buffer) (cs : List FileCall) where
  -- With nothing refused by malloc, looking up from end to end a path that is neither empty nor a
  -- dot nor two dots and whose bytes up to a NUL fit with a terminator in the daemon's buffer,
  -- itself below 2 GiB, gives a new unopened file object for the file hello where the name is hello
  -- in the root, and -ENOENT otherwise.
  pub fusefs_lookup-hello :
      (ff : FusefsFile) (path : List ℕ)
      → is_name path ≡ true
      → length (c_string path) < length b.body
      → length b.body < 2 ^ 31
      → fusefs_lookup (daemon_channel hello_session) ff path (quiet n live b cs)
        ≡ ok (
            if is_hello ff.nodeid (c_string path)
            then (
              stop_file (child (fresh_file 2)) (length path),
              after n (suc live) b cs (lookup ff.nodeid (c_string path)),
            )
            else (failed (neg enoent), after n live b cs (lookup ff.nodeid (c_string path))))
  unfolding lookup_name lookup_reply entry_reply child_found fusefs_file_alloc wait_done malloc free
  fusefs_lookup-hello ff path named room small =
      let i = lookup ff.nodeid (c_string path) in
      let long = length-append (c_string path) (0 ∷ []) in
      rw
        (
          lookup_asks ff path (quiet n live b cs) named,
          send-direct hello_session hello-IsReady (quiet n (suc live) b cs) i
              (c_string-IsCString path) (omega (arith, room, long))
              (omega (arith, room, small, long)),
          start_lookup (new_request fuse_ukfs_lookup n i) (suc live) ff.nodeid (c_string path),
        )
        (ground arith)
