-- ===== src/System/Uncrashed.antt =====
-- The operations of libs/ukfusefs/ukfs-fuse.c with apps/fuse-correctness-test/hello_ll.c behind them,
-- whatever malloc refuses.
use ukfs_fuse.Common.{
  ℕ, ◌+◌, ◌%◌, ◌^◌, ◌≤◌, ◌<◌, ◌≡◌, ◌≢◌, sym, ap, ◌∙◌, refl, Bool, true, false, Bool-cases, inl, inr,
  List, [], ◌∷◌, length, arith, Exec, ok, fault, ◌>>=◌, Mem, malloc, malloc-live, given, c_string,
  c_string-IsCString, length-append, ◌==◌, ◌&&◌, if◌then◌else◌, Option, none, some, ℤ, is_nonzero,
  >>=-eq-ok,
}
use ukfs_fuse.Request.{
  Request, Payload, open_out, Input, lookup, getattr, opens, read, fuse_ukfs_open,
}
use ukfs_fuse.Daemon.{Buffer, header_size}
use ukfs_fuse.Daemon.Wire.{payload, length-message, opcode_of}
use ukfs_fuse.Daemon.Direct.{InRange, start_direct}
use ukfs_fuse.Libfuse.Answered.{answers}
use ukfs_fuse.Hello.Answers.{IsServed, hello_session, hello-Answers}
use ukfs_fuse.Driver.{World, FusefsFile, no_fh, freed, wait_done, send}
use ukfs_fuse.Driver.Attr.{Statx, fusefs_getstat, lookup_name, fusefs_lookup}
use ukfs_fuse.Driver.Read.{
  Iov, take_fh, open_reply, fusefs_do_open, total_from, read_opened, after_open, fusefs_read,
}
use ukfs_fuse.System.{daemon_channel}
use ukfs_fuse.System.Answer.{hello-IsReady, read_payload, open_payload}
use ukfs_fuse.System.Delivery.{asked_once, request_for, send-direct}
use ukfs_fuse.System.Kinds.{send-HasKind, send-chan, open-Gives}
use ukfs_fuse.System.Casts.{
  crashed_in, returns_well, getstat-OnlyBehind, open-OnlyBehind, read-OnlyBehind, lookup-OnlyBehind,
}
use ukfs_fuse.System.Attributes.{getattr_payload}

wait_done-uncrashed : {S : Type 0} (w : World S) (x : _) → wait_done w x ≢ fault
unfolding wait_done
wait_done-uncrashed w x h = ground (arith, h)

-- A request that the backend can serve does not crash behind the channel.
module _ (w : World Buffer) (i : Input) where
  start-uncrashed :
      (r : Bool × Mem) (f : Request × Mem → Exec (Request × World Buffer))
      → ((a : Request × Mem) → f a ≢ fault)
      → (r.0 ≡ true → 0 < r.1.live)
      → IsServed i r.1
      → (start_direct hello_session i (request_for w i) r >>= f) ≢ fault
  start-uncrashed (false, m) f fine held s h = fine _ h
  start-uncrashed (true, m) f fine held s h =
      elim (hello-Answers (request_for w i) m (held refl) i s) [
        | answers d e a ↦ fine _ (rw e at h)
      ]

  send-uncrashed :
      InRange i
      → length (payload i) ≤ length w.chan.body
      → header_size + length (payload i) < 2 ^ 32
      → IsServed i (malloc w.mem).1
      → send (daemon_channel hello_session) (opcode_of i) i w ≢ fault
  send-uncrashed h room small s e =
      start-uncrashed (malloc w.mem) _ (λ a. wait_done-uncrashed (asked_once w) _)
        (λ k. omega (arith, malloc-live w.mem, ap given k)) s
        (sym (send-direct hello_session hello-IsReady w i h room small) ∙ e)

module _ (w : World Buffer) (room : 40 ≤ length w.chan.body)
    (small : length w.chan.body < 2 ^ 31) where
  getstat-uncrashed :
      (mask : ℕ) (ff : FusefsFile) (arg : Statx)
      → fusefs_getstat (daemon_channel hello_session) mask ff arg w ≢ fault
  getstat-uncrashed mask ff arg = λ h.
      send-uncrashed w (getattr ff.nodeid) tt (omega (arith, room, getattr_payload ff.nodeid))
        (omega (arith, getattr_payload ff.nodeid)) tt
        (getstat-OnlyBehind w room small mask ff arg h)

  open-uncrashed : (ff : FusefsFile) → fusefs_do_open (daemon_channel hello_session) ff w ≢ fault
  open-uncrashed ff = λ h.
      send-uncrashed w (opens ff.nodeid 0) (omega arith) (omega (arith, room, open_payload))
        (omega (arith, open_payload)) tt (open-OnlyBehind w room small ff h)

  read-uncrashed :
      (ff : FusefsFile) (iov : Iov) (off : ℕ)
      → ff.nodeid ≡ 2
      → ff.fh < 2 ^ 64
      → off < 2 ^ 63
      → read_opened (daemon_channel hello_session) ff iov off w ≢ fault
  read-uncrashed ff iov off n f o =
      let size = total_from 0 iov % 2 ^ 32 in
      let wide : off < 2 ^ 64 = omega (arith, o) in
      λ h.
        send-uncrashed w (read ff.nodeid ff.fh off size) (f, wide, omega arith)
          (omega (arith, room, read_payload ff.fh off size))
          (omega (arith, read_payload ff.fh off size)) (n, o)
          (read-OnlyBehind w room small ff iov off f wide h)

  name-uncrashed :
      (ff : FusefsFile) (path : List ℕ) (r : Bool × Mem)
      → length (c_string path) < length w.chan.body
      → lookup_name (daemon_channel hello_session) ff path w r ≢ fault
  unfolding lookup_name
  name-uncrashed ff path (false, m) short h = cc
  name-uncrashed ff path (true, m) short h =
      let w' : World Buffer = record w { mem = m } in
      let long = length-append (c_string path) (0 ∷ []) in
      send-uncrashed w' (lookup ff.nodeid (c_string path)) (c_string-IsCString path)
        (omega (arith, short, long)) (omega (arith, short, small, long)) tt
        (lookup-OnlyBehind w' room small ff path short h)

  lookup-uncrashed :
      (ff : FusefsFile) (path : List ℕ)
      → length (c_string path) < length w.chan.body
      → fusefs_lookup (daemon_channel hello_session) ff path w ≢ fault
  unfolding fusefs_lookup
  lookup-uncrashed ff [] short h = cc
  lookup-uncrashed ff (a ∷ []) short h = elim (Bool-cases (a == b'.')) [
    | inl e ↦ absurd (returns_well (rw e at h))
    | inr e ↦ name-uncrashed ff (a ∷ []) (malloc w.mem) short (rw e at h)
  ]
  lookup-uncrashed ff (a ∷ b ∷ []) short h = elim (Bool-cases (a == b'.' && b == b'.')) [
    | inl e ↦ absurd (returns_well (rw e at h))
    | inr e ↦ name-uncrashed ff (a ∷ b ∷ []) (malloc w.mem) short (rw e at h)
  ]
  lookup-uncrashed ff (a ∷ b ∷ c ∷ path) short h =
      name-uncrashed ff (a ∷ b ∷ c ∷ path) (malloc w.mem) short h

-- The lazy open of `fusefs_read`, and the read behind it.
module _ (w : World Buffer) (room : 40 ≤ length w.chan.body) (small : length w.chan.body < 2 ^ 31)
    (ff : FusefsFile) (iov : Iov) (off : ℕ) (hello : ff.nodeid ≡ 2) (offset : off < 2 ^ 63) where
  after-uncrashed :
      (w' : World Buffer) (fh : ℕ)
      → length w'.chan.body ≡ length w.chan.body
      → fh ≡ 0
      → read_opened (daemon_channel hello_session) (record ff { fh = fh }) iov off w' ≢ fault
  after-uncrashed w' fh same e =
      read-uncrashed w' (omega (arith, room, same)) (omega (arith, small, same))
        (record ff { fh = fh }) iov off hello (omega (arith, e)) offset

  taken-uncrashed :
      (err : Bool) (error : ℤ) (w' : World Buffer) (o : Option Payload)
      → is_nonzero error ≡ err
      → length w'.chan.body ≡ length w.chan.body
      → ((p : Payload) → o ≡ some p → p ≡ open_out 0)
      → ((if err then ok (error, ff, w') else take_fh ff w' o)
          >>= after_open (daemon_channel hello_session) iov off)
        ≢ fault
  unfolding take_fh after_open
  taken-uncrashed true error w' o e same given_ h = returns_well (rw e at h)
  taken-uncrashed false error w' none e same given_ h = returns_well h
  taken-uncrashed false error w' (some p) e same given_ h =
      after-uncrashed (freed w') 0 same refl (rw (given_ p refl) at h)

  read_whole-uncrashed :
      ff.fh < 2 ^ 64 → fusefs_read (daemon_channel hello_session) ff iov off w ≢ fault
  unfolding fusefs_read fusefs_do_open open_reply
  read_whole-uncrashed f h = elim (Bool-cases (ff.fh == no_fh)) [
    | inr e ↦ read-uncrashed w room small ff iov off hello f offset (rw e at h)
    | inl e ↦ elim (crashed_in (fusefs_do_open (daemon_channel hello_session) ff w) _ (rw e at h)) [
      | inl k ↦ open-uncrashed w room small ff k
      | inr (a, k, l) ↦
          let ((req, w'), sent, took) =
            >>=-eq-ok (send (daemon_channel hello_session) fuse_ukfs_open (opens ff.nodeid 0) w) _
              k in
          let fits : length (payload (opens ff.nodeid 0)) ≤ length w.chan.body =
            omega (arith, room, open_payload) in
          let small_ : header_size + length (payload (opens ff.nodeid 0)) < 2 ^ 32 =
            omega (arith, open_payload) in
          let same : length w'.chan.body ≡ length w.chan.body =
            ap (λ b. length b.body)
              (send-chan w (opens ff.nodeid 0) req w' (omega arith) fits small_ sent)
            ∙ length-message w.chan w.fuse_req_unique (opens ff.nodeid 0) fits in
          taken-uncrashed (is_nonzero req.error) req.error w' req.reply_data refl same
            (λ p q.
              send-HasKind w (opens ff.nodeid 0) req w' (omega arith) fits small_ sent
                (λ p. p ≡ open_out 0) p (λ c. open-Gives c ff.nodeid 0) q)
            (ap (λ x. x >>= after_open (daemon_channel hello_session) iov off) took ∙ l)
    ]
  ]

-- With a daemon's buffer of at least 40 bytes and less than 2 GiB behind the header and hello_ll
-- behind the daemon, whatever malloc refuses, fusefs_getstat and fusefs_do_open of any file do not
-- crash, nor does fusefs_lookup of a path that fits in the buffer, nor fusefs_read of the file
-- hello, open or not, at an offset of an off_t with a handle of 64 bits.
pub operations-uncrashed :
    (w : World Buffer) (ff : FusefsFile) (mask : ℕ) (arg : Statx) (path : List ℕ)
    (hello : FusefsFile) (iov : Iov) (off : ℕ)
    → 40 ≤ length w.chan.body
    → length w.chan.body < 2 ^ 31
    → length (c_string path) < length w.chan.body
    → hello.nodeid ≡ 2
    → hello.fh < 2 ^ 64
    → off < 2 ^ 63
    → (fusefs_getstat (daemon_channel hello_session) mask ff arg w ≢ fault)
      × (fusefs_do_open (daemon_channel hello_session) ff w ≢ fault)
      × (fusefs_lookup (daemon_channel hello_session) ff path w ≢ fault)
      × (fusefs_read (daemon_channel hello_session) hello iov off w ≢ fault)
operations-uncrashed w ff mask arg path hello iov off room small short n f o = (
  getstat-uncrashed w room small mask ff arg,
  open-uncrashed w room small ff,
  lookup-uncrashed w room small ff path short,
  read_whole-uncrashed w room small hello iov off n o f,
)
