-- ===== src/System/Reading.antt =====
-- A read of the file hello from end to end: libs/ukfusefs/ukfs-fuse.c over the queue, the daemon,
-- libfuse and apps/fuse-correctness-test/hello_ll.c.
use ukfs_fuse.Common.{
  ℕ, ◌+◌, ◌%◌, ◌^◌, ◌≤◌, ◌<◌, ◌≡◌, refl, inl, inr, ◌∙◌, false, none, some, List, [], ◌∷◌, arith,
  length, ap, length-append, length-take, length-drop, drop, ℕ_discrete, flatten, ◌==◌, Bool-cases,
  ok, pos, free, map,
}
use ukfs_fuse.Request.{Request, opens, bytes}
use ukfs_fuse.Daemon.{Buffer}
use ukfs_fuse.Daemon.Wire.{payload, message}
use ukfs_fuse.Hello.{hello_str}
use ukfs_fuse.Hello.Answers.{hello_session}
use ukfs_fuse.Driver.{FusefsFile, no_fh, FileCall, World, freed}
use ukfs_fuse.Driver.Read.{
  Iov, ReadResult, total_from, scatter, scatter_reply, read_reply, take_fh, open_reply,
  fusefs_do_open, read_opened, after_open, fusefs_read,
}
use ukfs_fuse.Driver.Scatter.{overwrite, scatter_lem}
use ukfs_fuse.System.{daemon_channel}
use ukfs_fuse.System.Answer.{
  file_bytes, quiet, read_answer, read_world, send_read, send_open, open_payload,
}

-- The sum of the lengths, where it is that of a `size_t`.
total_from_lem :
    (total : ℕ) (iov : Iov)
    → total + length (flatten iov) < 2 ^ 64
    → total_from total iov ≡ total + length (flatten iov)
unfolding total_from
total_from_lem total [] h = omega arith
total_from_lem total (b ∷ iov) h =
    let sum = length-append b (flatten iov) in
    let whole : (total + length b) % 2 ^ 64 ≡ total + length b = omega (arith, sum) in
    rw whole (total_from_lem (total + length b) iov (omega (arith, sum)) ∙ omega (arith, sum))

-- The file hello, with its handle.
abbrev pub hello_file : ℕ → FusefsFile
hello_file fh = record { nodeid = 2; fh = fh; upref = none }

-- What a read of `off` into the buffers has to come to.
pub record IsRead (iov : Iov) (off : ℕ) (out : ReadResult Buffer) : Type 0 where
  pub returned : out.ret ≡ pos (length (file_bytes (length (flatten iov)) off))
  pub filled : flatten out.iov ≡ overwrite (flatten iov) (file_bytes (length (flatten iov)) off)
  pub bounds_kept : map length out.iov ≡ map length iov

length-file_bytes : (size off : ℕ) → length (file_bytes size off) ≤ size
length-file_bytes size off = length-take size (drop off hello_str)

-- The reply spread over the buffers.
spread :
    (ff : FusefsFile) (iov : Iov) (off : ℕ) (req : Request) (w : World Buffer)
    → req.error ≡ pos 0
    → req.reply_data ≡ some (bytes (file_bytes (length (flatten iov)) off))
    → req.reply_len ≡ length (file_bytes (length (flatten iov)) off)
    → (out : ReadResult Buffer) × (read_reply ff iov (req, w) ≡ ok out) × IsRead iov off out
unfolding read_reply scatter_reply
spread ff iov off req w fine data_ len =
    let src = file_bytes (length (flatten iov)) off in
    let r = scatter iov src (length src) 0 in
    let facts = scatter_lem iov src 0 in
    (
      record { ret = pos r.1; file = ff; iov = r.0; world = freed w },
      rw (fine, data_, len),
      record {
        returned =
            ap pos (omega (arith, facts.counted, length-file_bytes (length (flatten iov)) off));
        filled = facts.memory;
        bounds_kept = facts.in_bounds;
      },
    )

module _ (live : ℕ) (cs : List FileCall) (iov : Iov) (off : ℕ) (o : off < 2 ^ 63)
    (small : length (flatten iov) < 2 ^ 32) where
  total_lem : total_from 0 iov ≡ length (flatten iov)
  total_lem = total_from_lem 0 iov (omega (arith, small)) ∙ omega arith

  nothing-IsRead :
      (ff : FusefsFile) (w : World Buffer)
      → length (flatten iov) ≡ 0
      → IsRead iov off (record { ret = pos 0; file = ff; iov = iov; world = w })
  nothing-IsRead ff w empty = record {
    returned = rw empty refl;
    filled = rw empty refl;
    bounds_kept = refl;
  }

  read_opened-hello :
      (n : ℕ) (b : Buffer) (fh : ℕ)
      → fh < 2 ^ 64
      → 40 ≤ length b.body
      → (out : ReadResult Buffer) × (read_opened
            (daemon_channel hello_session)
            (hello_file fh)
            iov
            off
            (quiet n live b cs)
          ≡ ok out)
        × IsRead iov off out
  unfolding read_opened
  read_opened-hello n b fh f room = elim (ℕ_discrete (length (flatten iov)) 0) [
    | yes empty ↦ (
      record { ret = pos 0; file = hello_file fh; iov = iov; world = quiet n live b cs },
      rw (total_lem, empty) refl,
      nothing-IsRead (hello_file fh) (quiet n live b cs) empty,
    )
    | no filled ↦
        let total = length (flatten iov) in
        let whole : total % 2 ^ 32 ≡ total = omega (arith, small) in
        let some_left : (total == 0) ≡ false = ground (arith, filled) in
        let (out, e, r) =
          spread (hello_file fh) iov off (read_answer n live fh off total)
            (read_world n live b cs fh off total) refl refl refl in
        (
          out,
          rw (total_lem, some_left, whole, send_read n live b cs fh off total f o small room) e,
          r,
        )
  ]

opened_room : (n : ℕ) (b : Buffer) → 40 ≤ length b.body → 40 ≤ length (message b n (opens 2 0)).body
opened_room n b room =
    let i = opens 2 0 in
    omega (
      arith,
      room,
      open_payload,
      length-append (payload i) (drop (length (payload i)) b.body),
      length-drop (length (payload i)) b.body,
    )

fusefs_do_open-hello :
    (n live : ℕ) (b : Buffer) (cs : List FileCall) (fh : ℕ)
    → 8 ≤ length b.body
    → fusefs_do_open (daemon_channel hello_session) (hello_file fh) (quiet n live b cs)
      ≡ ok (pos 0, hello_file 0, quiet ((n + 1) % 2 ^ 64) live (message b n (opens 2 0)) cs)
unfolding fusefs_do_open open_reply take_fh free
fusefs_do_open-hello n live b cs fh room = rw (send_open n live b cs room) (ground arith)

-- With nothing refused by malloc, a handle of 64 bits, an offset of an off_t, buffers of less than
-- 4 GiB in all and a daemon's buffer of at least 40 bytes behind the header, reading the file hello
-- through the driver, the queue, the daemon, libfuse and the backend returns, whether or not the
-- file was open, the number of its bytes from the offset on, up to the length of the buffers, puts
-- these bytes at the start of the buffers, and leaves the rest of them alone.
pub fusefs_read-hello :
    (n live : ℕ) (b : Buffer) (cs : List FileCall) (fh : ℕ) (iov : Iov) (off : ℕ)
    → fh < 2 ^ 64
    → off < 2 ^ 63
    → length (flatten iov) < 2 ^ 32
    → 40 ≤ length b.body
    → (out : ReadResult Buffer) × (fusefs_read
          (daemon_channel hello_session)
          (hello_file fh)
          iov
          off
          (quiet n live b cs)
        ≡ ok out)
      × IsRead iov off out
unfolding fusefs_read after_open
fusefs_read-hello n live b cs fh iov off f o small room = elim (Bool-cases (fh == no_fh)) [
  | inl fresh ↦
      let (out, e, r) =
        read_opened-hello live cs iov off o small ((n + 1) % 2 ^ 64) (message b n (opens 2 0)) 0
          (omega arith) (opened_room n b room) in
      (out, rw (fresh, fusefs_do_open-hello n live b cs fh (omega (arith, room))) e, r)
  | inr opened ↦
      let (out, e, r) = read_opened-hello live cs iov off o small n b fh f room in
      (out, rw opened e, r)
]
