-- ===== src/System/Listing.antt =====
-- A listing of the root directory from end to end: `fusefs_listdir` of libs/ukfusefs/ukfs-fuse.c over
-- the queue, the daemon, libfuse and apps/fuse-correctness-test/hello_ll.c.
use ukfs_fuse.Common.{
  ℕ, suc, ◌+◌, ◌-◌, ◌%◌, ◌^◌, ◌≤◌, ◌<◌, ◌≡◌, refl, ap, ◌∙◌, false, none, some, List, [], ◌∷◌, arith,
  length, take, drop, drop_all, take-nil, le, load, ltb, lt→ltb, ◌==◌, if◌then◌else◌, ok, pos, neg,
  malloc, free,
}
use ukfs_fuse.Errno.{einval}
use ukfs_fuse.Request.{Request, readdir, new_request, fuse_ukfs_readdir}
use ukfs_fuse.Daemon.{Buffer, read_in}
use ukfs_fuse.Daemon.Wire.{payload, message}
use ukfs_fuse.Daemon.Direct.{start_direct}
use ukfs_fuse.Libfuse.{or_else}
use ukfs_fuse.Hello.{hello_name, reply_dirbuf, hello_ll_readdir, direntry}
use ukfs_fuse.Hello.Answers.{hello_session, root_listing, unrefused, hello_dirbuf_lem}
use ukfs_fuse.Driver.{FileCall, World, wait_done, send}
use ukfs_fuse.Driver.File.{fresh_file}
use ukfs_fuse.Driver.Dir.{
  DirResult, dirent_of, decode_reply, dir_reply, listdir_reply, fusefs_listdir,
}
use ukfs_fuse.System.{daemon_channel}
use ukfs_fuse.System.Delivery.{send-direct}
use ukfs_fuse.System.Answer.{handed_over, limited_lem, hello-IsReady, quiet}

-- The part of the directory that is left at a cursor.
abbrev pub listing_from : ℕ → List ℕ
listing_from cursor = take 4096 (drop cursor root_listing)

pub start_readdir :
    (req : Request) (live cursor : ℕ)
    → cursor < 2 ^ 63
    → start_direct hello_session (readdir 1 0 cursor 4096) req (malloc (unrefused live))
      ≡ ok ((handed_over req live (listing_from cursor)).request, unrefused (suc live))
unfolding malloc hello_session or_else hello_ll_readdir reply_dirbuf free
start_readdir req live cursor h =
    rw
      (
        lt→ltb cursor (2 ^ 63) h,
        hello_dirbuf_lem (suc live),
        limited_lem req (suc live) root_listing cursor 4096,
      )
      (ground arith)

pub readdir_payload : (cursor : ℕ) → length (payload (readdir 1 0 cursor 4096)) ≡ 40
unfolding read_in le
readdir_payload cursor = refl

module _ (n live : ℕ) (b : Buffer) (cs : List FileCall) (room : 40 ≤ length b.body) where
  -- The world after a readdir, its answer still allocated.
  abbrev pub listed : ℕ → ℕ → World Buffer
  listed live' cursor = quiet ((n + 1) % 2 ^ 64) live' (message b n (readdir 1 0 cursor 4096)) cs

  abbrev readdir_answer : ℕ → Request
  readdir_answer cursor =
      record (handed_over (new_request fuse_ukfs_readdir n (readdir 1 0 cursor 4096)) live
        (listing_from cursor)).request { done = 0 }

  send_readdir :
      (cursor : ℕ)
      → cursor < 2 ^ 63
      → send
          (daemon_channel hello_session)
          fuse_ukfs_readdir
          (readdir 1 0 cursor 4096)
          (quiet n live b cs)
        ≡ ok (readdir_answer cursor, listed (suc live) cursor)
  unfolding wait_done
  send_readdir cursor h =
      send-direct hello_session hello-IsReady (quiet n live b cs) (readdir 1 0 cursor 4096)
        (omega arith, omega (arith, h), omega arith) (omega (arith, room, readdir_payload cursor))
        (omega (arith, readdir_payload cursor))
      ∙ rw (start_readdir (new_request fuse_ukfs_readdir n (readdir 1 0 cursor 4096)) live cursor h)

-- The entries of the root directory: the cursor at which each is read, the next cursor, its name and
-- its inode.
pub data EntryAt : ℕ → ℕ → List ℕ → ℕ → Type 0 where
  dot : EntryAt 0 32 (b'.' ∷ []) 1
  dot_dot : EntryAt 32 64 (b'.' ∷ b'.' ∷ []) 1
  hello : EntryAt 64 96 hello_name 2

pub EntryAt-bound :
    {cursor next : ℕ} {name : List ℕ} {ino : ℕ} → EntryAt cursor next name ino → cursor < 2 ^ 63
EntryAt-bound dot = omega arith
EntryAt-bound dot_dot = omega arith
EntryAt-bound hello = omega arith

module _ (reclen : ℕ → ℕ) (len : ℕ) where
  -- An entry for the caller, or -EINVAL where its buffer is too small.
  abbrev pub entry_or_einval : World Buffer → ℕ → ℕ → List ℕ → ℕ → DirResult Buffer
  entry_or_einval w cursor next name ino =
      if ltb len (reclen (length name))
      then record { ret = neg einval; cursor = cursor; out = none; world = w }
      else record {
        ret = pos (reclen (length name));
        cursor = next;
        out = some (record {
          d_ino = ino;
          d_off = next;
          d_reclen = reclen (length name) % 2 ^ 16;
          d_type = 0;
          d_name = name;
        });
        world = w;
      }

  decode_entry :
      (w : World Buffer) {cursor next : ℕ} {name : List ℕ} {ino : ℕ}
      → EntryAt cursor next name ino
      → decode_reply reclen cursor len w (listing_from cursor)
        ≡ ok (entry_or_einval w cursor next name ino)
  unfolding decode_reply dirent_of root_listing direntry le load
  decode_entry w dot = ground arith
  decode_entry w dot_dot = ground arith
  decode_entry w hello = ground arith

  filled_at :
      {cursor next : ℕ} {name : List ℕ} {ino : ℕ}
      → EntryAt cursor next name ino
      → (length (listing_from cursor) == 0) ≡ false
  unfolding root_listing direntry le
  filled_at dot = refl
  filled_at dot_dot = refl
  filled_at hello = refl

  nothing_at : (cursor : ℕ) → 96 ≤ cursor → listing_from cursor ≡ []
  unfolding root_listing direntry le
  nothing_at cursor h = rw (drop_all cursor root_listing (omega (arith, h))) (take-nil 4096)

  module _ (n live : ℕ) (b : Buffer) (cs : List FileCall) (room : 40 ≤ length b.body) where
    -- With nothing refused by malloc and a daemon's buffer of at least 40 bytes behind the header,
    -- listing the root directory of hello_ll from end to end at the cursor of an entry (0, 32, 64
    -- for ".", "..", "hello") gives that entry and moves the cursor to the next one (32, 64, 96),
    -- or returns -EINVAL and leaves the cursor where the caller's buffer is too small.
    pub fusefs_listdir-entry :
        {cursor next : ℕ} {name : List ℕ} {ino : ℕ}
        → EntryAt cursor next name ino
        → fusefs_listdir reclen
            (daemon_channel hello_session)
            (fresh_file 1)
            cursor
            len
            (quiet n live b cs)
          ≡ ok (entry_or_einval (listed n live b cs room live cursor) cursor next name ino)
    unfolding fusefs_listdir listdir_reply dir_reply free
    fusefs_listdir-entry {cursor} {next} {name} {ino} e =
        let one_less : suc live - 1 ≡ live = omega arith in
        rw (send_readdir n live b cs room cursor (EntryAt-bound e), filled_at e, decode_entry _ e)
          (ap (λ k. ok (entry_or_einval (listed n live b cs room k cursor) cursor next name ino))
            one_less)

    -- With nothing refused by malloc and a daemon's buffer of at least 40 bytes behind the header,
    -- listing the root directory of hello_ll from end to end at a cursor of an off_t from 96 on
    -- returns 0 and leaves the cursor.
    pub fusefs_listdir-end :
        (cursor : ℕ)
        → 96 ≤ cursor
        → cursor < 2 ^ 63
        → fusefs_listdir reclen
            (daemon_channel hello_session)
            (fresh_file 1)
            cursor
            len
            (quiet n live b cs)
          ≡ ok (record {
            ret = pos 0;
            cursor = cursor;
            out = none;
            world = listed n live b cs room live cursor;
          })
    unfolding fusefs_listdir listdir_reply dir_reply free
    fusefs_listdir-end cursor end h =
        rw (send_readdir n live b cs room cursor h, nothing_at cursor end) (ground arith)
