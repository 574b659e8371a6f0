-- ===== src/Examples/Drivers.antt =====
-- libs/ukfusefs/ukfs-fuse.c over apps/fuse-correctness-test/hello_ll.c: calls of the driver.
use ukfs_fuse.Common.{
  ℕ, ◌≡◌, ◌+◌, refl, none, some, List, [], ◌∷◌, replicate, length, Exec, ok, malloc, pos,
}
use ukfs_fuse.Request.{opens, read, lookup, getattr, readdir}
use ukfs_fuse.Daemon.{Buffer}
use ukfs_fuse.Daemon.Wire.{message}
use ukfs_fuse.Hello.{hello_str, hello_name, hello_mode}
use ukfs_fuse.Hello.Answers.{hello_session, unrefused}
use ukfs_fuse.Driver.{World}
use ukfs_fuse.Driver.File.{fresh_file}
use ukfs_fuse.Driver.Read.{fusefs_read, ReadResult, scatter}
use ukfs_fuse.Driver.Attr.{Statx, fusefs_getstat, LookupResult, stop_file, child, fusefs_lookup}
use ukfs_fuse.Driver.Dir.{DirResult, fusefs_listdir}
use ukfs_fuse.Driver.Scatter.{Scattered, scatter_lem}
use ukfs_fuse.Driver.Balance.Attrs.{kept}
use ukfs_fuse.Driver.Balance.Operations.{IfReturned, operations-live}
use ukfs_fuse.System.{daemon_channel}
use ukfs_fuse.System.Sound.{hello_channel-IsSound}

abbrev room : ℕ → Buffer
room n = record {
  header = record { len = 0; opcode = 0; unique = 0; nodeid = 0; uid = 0; gid = 0; pid = 0 };
  body = replicate n 170;
}

abbrev world : World Buffer
world = record { fuse_req_unique = 5; mem = unrefused 0; chan = room 48; calls = [] }

-- The world after requests have been made, the last of which left the buffer `b`.
abbrev world_after : ℕ → ℕ → Buffer → World Buffer
world_after n live b = record {
  fuse_req_unique = 5 + n;
  mem = unrefused live;
  chan = b;
  calls = [];
}

-- "World!" and a newline, spread over two buffers.
abbrev read_result : ReadResult Buffer
read_result = record {
  ret = pos 7;
  file = record { nodeid = 2; fh = 0; upref = none };
  iov = (b'W' ∷ b'o' ∷ b'r' ∷ b'l' ∷ []) ∷ (b'd' ∷ b'!' ∷ 10 ∷ 0 ∷ 0 ∷ []) ∷ [];
  world = world_after 2 0 (message (message (room 48) 5 (opens 2 0)) 6 (read 2 0 6 9));
}

abbrev lookup_result : LookupResult × World Buffer
lookup_result = (
  stop_file (child (fresh_file 2)) 5,
  world_after 1 1 (message (room 48) 5 (lookup 1 hello_name)),
)

abbrev no_statx : Statx
no_statx = record {
  stx_mask = 0;
  stx_mode = 0;
  stx_size = 0;
  stx_ino = 0;
  stx_nlink = 0;
  stx_uid = 0;
  stx_gid = 0;
}

abbrev hello_statx : Statx
hello_statx = record {
  stx_mask = 0x306;
  stx_mode = hello_mode;
  stx_size = 13;
  stx_ino = 2;
  stx_nlink = 1;
  stx_uid = 0;
  stx_gid = 0;
}

abbrev dir_result : DirResult Buffer
dir_result = record {
  ret = pos 32;
  cursor = 96;
  out = some (record { d_ino = 2; d_off = 96; d_reclen = 32; d_type = 0; d_name = hello_name });
  world = world_after 1 0 (message (room 48) 5 (readdir 1 0 64 4096));
}

abbrev dirent_reclen : ℕ → ℕ
dirent_reclen namelen = 27 + namelen

read_run :
    fusefs_read
      (daemon_channel hello_session)
      (fresh_file 2)
      (replicate 4 0 ∷ replicate 5 0 ∷ [])
      6
      world
    ≡ ok read_result
unfolding fusefs_read ukfs_fuse.Driver.Read.fusefs_do_open ukfs_fuse.Driver.send
    ukfs_fuse.System.submit_to ukfs_fuse.Daemon.append_bytes ukfs_fuse.Common.le
    ukfs_fuse.Libfuse.fuse_session_process_buf_internal malloc ukfs_fuse.Libfuse.checked_call
    ukfs_fuse.Libfuse.or_reply_err ukfs_fuse.Libfuse.fuse_req_opcode_sanity_ok hello_session
    ukfs_fuse.Libfuse.fuse_req_check_allow_root ukfs_fuse.Libfuse.call_handler
    ukfs_fuse.Libfuse.has_func ukfs_fuse.Libfuse.or_else ukfs_fuse.Hello.hello_ll_open
    ukfs_fuse.Common.load ukfs_fuse.Common.c_string ukfs_fuse.Common.free
    ukfs_fuse.Daemon.Loop.daemon_round ukfs_fuse.Daemon.Loop.serve ukfs_fuse.Daemon.Loop.serve_entry
    ukfs_fuse.Daemon.fill_getattr ukfs_fuse.Daemon.fill_lookup ukfs_fuse.Daemon.fill_open
    ukfs_fuse.Daemon.fill_read ukfs_fuse.Daemon.fill_readdir ukfs_fuse.Daemon.read_in
    ukfs_fuse.Daemon.dispatch_table ukfs_fuse.Daemon.fill_message ukfs_fuse.Daemon.find_entry
    ukfs_fuse.Daemon.reset_header ukfs_fuse.Driver.Read.after_open ukfs_fuse.Driver.Read.open_reply
    ukfs_fuse.Driver.Read.read_opened ukfs_fuse.Driver.Read.read_reply ukfs_fuse.Driver.Read.scatter
    ukfs_fuse.Driver.Read.scatter_reply ukfs_fuse.Driver.Read.take_fh
    ukfs_fuse.Driver.Read.total_from ukfs_fuse.Driver.wait_done ukfs_fuse.Hello.dirbuf_add
    ukfs_fuse.Hello.direntry ukfs_fuse.Hello.place_entry ukfs_fuse.Hello.realloc
    ukfs_fuse.Hello.hello_dirbuf ukfs_fuse.Hello.hello_ll_getattr ukfs_fuse.Hello.hello_ll_lookup
    ukfs_fuse.Hello.hello_ll_oper ukfs_fuse.Hello.hello_ll_read ukfs_fuse.Hello.hello_ll_readdir
    ukfs_fuse.Hello.hello_stat ukfs_fuse.Hello.reply_buf_limited ukfs_fuse.Hello.reply_dirbuf
    ukfs_fuse.Libfuse.answer_buf ukfs_fuse.Libfuse.answer_copy ukfs_fuse.Libfuse.answer_open
    ukfs_fuse.Libfuse.fuse_free_req ukfs_fuse.Libfuse.fuse_reply_attr
    ukfs_fuse.Libfuse.fuse_reply_buf ukfs_fuse.Libfuse.fuse_reply_entry
    ukfs_fuse.Libfuse.fuse_reply_err ukfs_fuse.Libfuse.fuse_reply_open ukfs_fuse.Libfuse.do_getattr
    ukfs_fuse.Libfuse.do_lookup ukfs_fuse.Libfuse.do_open ukfs_fuse.Libfuse.do_read
    ukfs_fuse.Libfuse.do_readdir ukfs_fuse.Libfuse.fuse_session_new_versioned
    ukfs_fuse.Libfuse.start_call ukfs_fuse.Queue.fuse_ukfs_queue_init
    ukfs_fuse.Queue.fuse_ukfs_queue_pop ukfs_fuse.Queue.fuse_ukfs_queue_push
    ukfs_fuse.Queue.remove_first
read_run = refl

lookup_run :
    fusefs_lookup (daemon_channel hello_session) (fresh_file 1) hello_name world ≡ ok lookup_result
unfolding fusefs_lookup ukfs_fuse.Driver.Attr.lookup_name ukfs_fuse.Driver.Attr.lookup_reply
    ukfs_fuse.Driver.Attr.entry_reply ukfs_fuse.Driver.Attr.child_found
    ukfs_fuse.Driver.File.fusefs_file_alloc ukfs_fuse.Driver.Read.fusefs_do_open
    ukfs_fuse.Driver.send ukfs_fuse.System.submit_to ukfs_fuse.Daemon.append_bytes
    ukfs_fuse.Common.le ukfs_fuse.Libfuse.fuse_session_process_buf_internal malloc
    ukfs_fuse.Libfuse.checked_call ukfs_fuse.Libfuse.or_reply_err
    ukfs_fuse.Libfuse.fuse_req_opcode_sanity_ok hello_session
    ukfs_fuse.Libfuse.fuse_req_check_allow_root ukfs_fuse.Libfuse.call_handler
    ukfs_fuse.Libfuse.has_func ukfs_fuse.Libfuse.or_else ukfs_fuse.Hello.hello_ll_open
    ukfs_fuse.Common.load ukfs_fuse.Common.c_string ukfs_fuse.Common.free
    ukfs_fuse.Daemon.Loop.daemon_round ukfs_fuse.Daemon.Loop.serve ukfs_fuse.Daemon.Loop.serve_entry
    ukfs_fuse.Daemon.fill_getattr ukfs_fuse.Daemon.fill_lookup ukfs_fuse.Daemon.fill_open
    ukfs_fuse.Daemon.fill_read ukfs_fuse.Daemon.fill_readdir ukfs_fuse.Daemon.read_in
    ukfs_fuse.Daemon.dispatch_table ukfs_fuse.Daemon.fill_message ukfs_fuse.Daemon.find_entry
    ukfs_fuse.Daemon.reset_header ukfs_fuse.Driver.Read.after_open ukfs_fuse.Driver.Read.open_reply
    ukfs_fuse.Driver.Read.read_opened ukfs_fuse.Driver.Read.read_reply ukfs_fuse.Driver.Read.scatter
    ukfs_fuse.Driver.Read.scatter_reply ukfs_fuse.Driver.Read.take_fh
    ukfs_fuse.Driver.Read.total_from ukfs_fuse.Driver.wait_done ukfs_fuse.Hello.dirbuf_add
    ukfs_fuse.Hello.direntry ukfs_fuse.Hello.place_entry ukfs_fuse.Hello.realloc
    ukfs_fuse.Hello.hello_dirbuf ukfs_fuse.Hello.hello_ll_getattr ukfs_fuse.Hello.hello_ll_lookup
    ukfs_fuse.Hello.hello_ll_oper ukfs_fuse.Hello.hello_ll_read ukfs_fuse.Hello.hello_ll_readdir
    ukfs_fuse.Hello.hello_stat ukfs_fuse.Hello.reply_buf_limited ukfs_fuse.Hello.reply_dirbuf
    ukfs_fuse.Libfuse.answer_buf ukfs_fuse.Libfuse.answer_copy ukfs_fuse.Libfuse.answer_open
    ukfs_fuse.Libfuse.fuse_free_req ukfs_fuse.Libfuse.fuse_reply_attr
    ukfs_fuse.Libfuse.fuse_reply_buf ukfs_fuse.Libfuse.fuse_reply_entry
    ukfs_fuse.Libfuse.fuse_reply_err ukfs_fuse.Libfuse.fuse_reply_open ukfs_fuse.Libfuse.do_getattr
    ukfs_fuse.Libfuse.do_lookup ukfs_fuse.Libfuse.do_open ukfs_fuse.Libfuse.do_read
    ukfs_fuse.Libfuse.do_readdir ukfs_fuse.Libfuse.fuse_session_new_versioned
    ukfs_fuse.Libfuse.start_call ukfs_fuse.Queue.fuse_ukfs_queue_init
    ukfs_fuse.Queue.fuse_ukfs_queue_pop ukfs_fuse.Queue.fuse_ukfs_queue_push
    ukfs_fuse.Queue.remove_first
lookup_run = refl

getstat_run :
    fusefs_getstat (daemon_channel hello_session) 0x306 (fresh_file 2) no_statx world
    ≡ ok (pos 0, hello_statx, world_after 1 0 (message (room 48) 5 (getattr 2)))
unfolding fusefs_getstat ukfs_fuse.Driver.Attr.getstat_reply ukfs_fuse.Driver.Attr.stat_reply
    ukfs_fuse.Driver.Attr.statx_of ukfs_fuse.Driver.Read.fusefs_do_open ukfs_fuse.Driver.send
    ukfs_fuse.System.submit_to ukfs_fuse.Daemon.append_bytes ukfs_fuse.Common.le
    ukfs_fuse.Libfuse.fuse_session_process_buf_internal malloc ukfs_fuse.Libfuse.checked_call
    ukfs_fuse.Libfuse.or_reply_err ukfs_fuse.Libfuse.fuse_req_opcode_sanity_ok hello_session
    ukfs_fuse.Libfuse.fuse_req_check_allow_root ukfs_fuse.Libfuse.call_handler
    ukfs_fuse.Libfuse.has_func ukfs_fuse.Libfuse.or_else ukfs_fuse.Hello.hello_ll_open
    ukfs_fuse.Common.load ukfs_fuse.Common.c_string ukfs_fuse.Common.free
    ukfs_fuse.Daemon.Loop.daemon_round ukfs_fuse.Daemon.Loop.serve ukfs_fuse.Daemon.Loop.serve_entry
    ukfs_fuse.Daemon.fill_getattr ukfs_fuse.Daemon.fill_lookup ukfs_fuse.Daemon.fill_open
    ukfs_fuse.Daemon.fill_read ukfs_fuse.Daemon.fill_readdir ukfs_fuse.Daemon.read_in
    ukfs_fuse.Daemon.dispatch_table ukfs_fuse.Daemon.fill_message ukfs_fuse.Daemon.find_entry
    ukfs_fuse.Daemon.reset_header ukfs_fuse.Driver.Read.after_open ukfs_fuse.Driver.Read.open_reply
    ukfs_fuse.Driver.Read.read_opened ukfs_fuse.Driver.Read.read_reply ukfs_fuse.Driver.Read.scatter
    ukfs_fuse.Driver.Read.scatter_reply ukfs_fuse.Driver.Read.take_fh
    ukfs_fuse.Driver.Read.total_from ukfs_fuse.Driver.wait_done ukfs_fuse.Hello.dirbuf_add
    ukfs_fuse.Hello.direntry ukfs_fuse.Hello.place_entry ukfs_fuse.Hello.realloc
    ukfs_fuse.Hello.hello_dirbuf ukfs_fuse.Hello.hello_ll_getattr ukfs_fuse.Hello.hello_ll_lookup
    ukfs_fuse.Hello.hello_ll_oper ukfs_fuse.Hello.hello_ll_read ukfs_fuse.Hello.hello_ll_readdir
    ukfs_fuse.Hello.hello_stat ukfs_fuse.Hello.reply_buf_limited ukfs_fuse.Hello.reply_dirbuf
    ukfs_fuse.Libfuse.answer_buf ukfs_fuse.Libfuse.answer_copy ukfs_fuse.Libfuse.answer_open
    ukfs_fuse.Libfuse.fuse_free_req ukfs_fuse.Libfuse.fuse_reply_attr
    ukfs_fuse.Libfuse.fuse_reply_buf ukfs_fuse.Libfuse.fuse_reply_entry
    ukfs_fuse.Libfuse.fuse_reply_err ukfs_fuse.Libfuse.fuse_reply_open ukfs_fuse.Libfuse.do_getattr
    ukfs_fuse.Libfuse.do_lookup ukfs_fuse.Libfuse.do_open ukfs_fuse.Libfuse.do_read
    ukfs_fuse.Libfuse.do_readdir ukfs_fuse.Libfuse.fuse_session_new_versioned
    ukfs_fuse.Libfuse.start_call ukfs_fuse.Queue.fuse_ukfs_queue_init
    ukfs_fuse.Queue.fuse_ukfs_queue_pop ukfs_fuse.Queue.fuse_ukfs_queue_push
    ukfs_fuse.Queue.remove_first
getstat_run = refl

listdir_run :
    fusefs_listdir dirent_reclen (daemon_channel hello_session) (fresh_file 1) 64 256 world
    ≡ ok dir_result
unfolding fusefs_listdir ukfs_fuse.Driver.Dir.listdir_reply ukfs_fuse.Driver.Dir.dir_reply
    ukfs_fuse.Driver.Dir.decode_reply ukfs_fuse.Driver.Dir.dirent_of
    ukfs_fuse.Driver.Read.fusefs_do_open ukfs_fuse.Driver.send ukfs_fuse.System.submit_to
    ukfs_fuse.Daemon.append_bytes ukfs_fuse.Common.le
    ukfs_fuse.Libfuse.fuse_session_process_buf_internal malloc ukfs_fuse.Libfuse.checked_call
    ukfs_fuse.Libfuse.or_reply_err ukfs_fuse.Libfuse.fuse_req_opcode_sanity_ok hello_session
    ukfs_fuse.Libfuse.fuse_req_check_allow_root ukfs_fuse.Libfuse.call_handler
    ukfs_fuse.Libfuse.has_func ukfs_fuse.Libfuse.or_else ukfs_fuse.Hello.hello_ll_open
    ukfs_fuse.Common.load ukfs_fuse.Common.c_string ukfs_fuse.Common.free
    ukfs_fuse.Daemon.Loop.daemon_round ukfs_fuse.Daemon.Loop.serve ukfs_fuse.Daemon.Loop.serve_entry
    ukfs_fuse.Daemon.fill_getattr ukfs_fuse.Daemon.fill_lookup ukfs_fuse.Daemon.fill_open
    ukfs_fuse.Daemon.fill_read ukfs_fuse.Daemon.fill_readdir ukfs_fuse.Daemon.read_in
    ukfs_fuse.Daemon.dispatch_table ukfs_fuse.Daemon.fill_message ukfs_fuse.Daemon.find_entry
    ukfs_fuse.Daemon.reset_header ukfs_fuse.Driver.Read.after_open ukfs_fuse.Driver.Read.open_reply
    ukfs_fuse.Driver.Read.read_opened ukfs_fuse.Driver.Read.read_reply ukfs_fuse.Driver.Read.scatter
    ukfs_fuse.Driver.Read.scatter_reply ukfs_fuse.Driver.Read.take_fh
    ukfs_fuse.Driver.Read.total_from ukfs_fuse.Driver.wait_done ukfs_fuse.Hello.dirbuf_add
    ukfs_fuse.Hello.direntry ukfs_fuse.Hello.place_entry ukfs_fuse.Hello.realloc
    ukfs_fuse.Hello.hello_dirbuf ukfs_fuse.Hello.hello_ll_getattr ukfs_fuse.Hello.hello_ll_lookup
    ukfs_fuse.Hello.hello_ll_oper ukfs_fuse.Hello.hello_ll_read ukfs_fuse.Hello.hello_ll_readdir
    ukfs_fuse.Hello.hello_stat ukfs_fuse.Hello.reply_buf_limited ukfs_fuse.Hello.reply_dirbuf
    ukfs_fuse.Libfuse.answer_buf ukfs_fuse.Libfuse.answer_copy ukfs_fuse.Libfuse.answer_open
    ukfs_fuse.Libfuse.fuse_free_req ukfs_fuse.Libfuse.fuse_reply_attr
    ukfs_fuse.Libfuse.fuse_reply_buf ukfs_fuse.Libfuse.fuse_reply_entry
    ukfs_fuse.Libfuse.fuse_reply_err ukfs_fuse.Libfuse.fuse_reply_open ukfs_fuse.Libfuse.do_getattr
    ukfs_fuse.Libfuse.do_lookup ukfs_fuse.Libfuse.do_open ukfs_fuse.Libfuse.do_read
    ukfs_fuse.Libfuse.do_readdir ukfs_fuse.Libfuse.fuse_session_new_versioned
    ukfs_fuse.Libfuse.start_call ukfs_fuse.Queue.fuse_ukfs_queue_init
    ukfs_fuse.Queue.fuse_ukfs_queue_pop ukfs_fuse.Queue.fuse_ukfs_queue_push
    ukfs_fuse.Queue.remove_first
listdir_run = refl

operations-live_example :
    IfReturned
      (fusefs_read (daemon_channel hello_session) (fresh_file 2) (replicate 4 0 ∷ []) 6 world)
      (λ out. out.world.mem.live ≡ world.mem.live)
    × IfReturned
        (fusefs_getstat (daemon_channel hello_session) 0x306 (fresh_file 2) no_statx world)
        (λ out. out.2.mem.live ≡ world.mem.live)
    × IfReturned
        (fusefs_lookup (daemon_channel hello_session) (fresh_file 2) hello_name world)
        (λ out. out.1.mem.live ≡ world.mem.live + kept out.0)
    × IfReturned
        (fusefs_listdir dirent_reclen (daemon_channel hello_session) (fresh_file 2) 64 256 world)
        (λ out. out.world.mem.live ≡ world.mem.live)
operations-live_example =
    operations-live (daemon_channel hello_session) hello_channel-IsSound (fresh_file 2) world
      (replicate 4 0 ∷ []) 6 0x306 no_statx hello_name dirent_reclen 64 256

scatter_lem_example :
    Scattered
      ((0 ∷ 0 ∷ []) ∷ (0 ∷ 0 ∷ []) ∷ [])
      (1 ∷ 2 ∷ 3 ∷ [])
      0
      (scatter ((0 ∷ 0 ∷ []) ∷ (0 ∷ 0 ∷ []) ∷ []) (1 ∷ 2 ∷ 3 ∷ []) 3 0)
scatter_lem_example = scatter_lem ((0 ∷ 0 ∷ []) ∷ (0 ∷ 0 ∷ []) ∷ []) (1 ∷ 2 ∷ 3 ∷ []) 0
