-- ===== src/Daemon/Wire.antt =====
-- What a request is on the wire: an independent description of the messages of
-- libs/ukfusefs/fuse_daemon.c, and the proof that the daemon's buffer holds them.
use ukfs_fuse.Common.{
  ◌⊎◌, none, neg, ℕ, ◌+◌, ◌^◌, ◌≤◌, ◌<◌, ◌≡◌, refl, List, [], ◌∷◌, ◌++◌, arith, length,
  length-append, length-drop, drop, le, ok, fault, ◌>>=◌, Mem,
}
use ukfs_fuse.Request.{
  Input, lookup, getattr, opens, read, readdir, new_request, fuse_ukfs_lookup, fuse_ukfs_getattr,
  fuse_ukfs_open, fuse_ukfs_read, fuse_ukfs_readdir, Request,
}
use ukfs_fuse.Errno.{enosys}
use ukfs_fuse.Daemon.{
  find_entry, dispatch_table, reset_header, Buffer, append_bytes, read_in, fuse_lookup,
  fuse_getattr, fuse_open, fuse_read, fuse_readdir, header_size,
}
use ukfs_fuse.Daemon.Loop.{serve, serve_entry}
use ukfs_fuse.Libfuse.{Session, answer, fuse_session_process_buf_internal}

-- The opcode that goes with each arm of the union.
abbrev pub opcode_of : Input → ℕ
opcode_of (lookup parent_ino name) = fuse_ukfs_lookup
opcode_of (getattr ino) = fuse_ukfs_getattr
opcode_of (opens ino flags) = fuse_ukfs_open
opcode_of (read ino fh offset size) = fuse_ukfs_read
opcode_of (readdir ino fh offset size) = fuse_ukfs_readdir

abbrev pub fuse_opcode_of : Input → ℕ
fuse_opcode_of (lookup parent_ino name) = fuse_lookup
fuse_opcode_of (getattr ino) = fuse_getattr
fuse_opcode_of (opens ino flags) = fuse_open
fuse_opcode_of (read ino fh offset size) = fuse_read
fuse_opcode_of (readdir ino fh offset size) = fuse_readdir

abbrev pub node_of : Input → ℕ
node_of (lookup parent_ino name) = parent_ino
node_of (getattr ino) = ino
node_of (opens ino flags) = ino
node_of (read ino fh offset size) = ino
node_of (readdir ino fh offset size) = ino

-- The bytes behind the header.
abbrev pub payload : Input → List ℕ
payload (lookup parent_ino name) = name ++ 0 ∷ []
payload (getattr ino) = le 4 0 ++ le 4 0 ++ le 8 0
payload (opens ino flags) = le 4 flags ++ le 4 0
payload (read ino fh offset size) = read_in fh offset size
payload (readdir ino fh offset size) = read_in fh offset size

-- The buffer that holds the message: the header, the payload, and behind it what stood there.
abbrev pub message : Buffer → ℕ → Input → Buffer
message b unique i = record {
  header = record {
    len = header_size + length (payload i);
    opcode = fuse_opcode_of i;
    unique = unique;
    nodeid = node_of i;
    uid = 0;
    gid = 0;
    pid = 1;
  };
  body = payload i ++ drop (length (payload i)) b.body;
}

pub length-message :
    (b : Buffer) (n : ℕ) (i : Input)
    → length (payload i) ≤ length b.body
    → length (message b n i).body ≡ length b.body
length-message b n i h = omega (
  arith,
  h,
  length-append (payload i) (drop (length (payload i)) b.body),
  length-drop (length (payload i)) b.body,
)

-- The buffer with its header complete, when the payload is still to come.
abbrev addressed : Buffer → ℕ → Input → Buffer
addressed b unique i = record {
  header = record (message b unique i).header { len = header_size };
  body = b.body;
}

append_fits :
    (b : Buffer) (src : List ℕ)
    → b.header.len ≡ header_size
    → length src ≤ length b.body
    → header_size + length src < 2 ^ 32
    → append_bytes b src
      ≡ ok (record {
        header = record b.header { len = header_size + length src };
        body = src ++ drop (length src) b.body;
      })
unfolding append_bytes
append_fits b src start room small = ground arith

append_overflows :
    (b : Buffer) (src : List ℕ)
    → b.header.len ≡ header_size
    → length b.body < length src
    → append_bytes b src ≡ fault
unfolding append_bytes
append_overflows b src start over = ground arith

module _ (se : Session) (b : Buffer) (unique : ℕ) (m : Mem) where
  -- A message that fits is in the buffer, whatever stood there before, when libfuse is called.
  pub serve-message :
      (i : Input)
      → length (payload i) ≤ length b.body
      → header_size + length (payload i) < 2 ^ 32
      → serve se b (new_request (opcode_of i) unique i) m ≡ (
          fuse_session_process_buf_internal se
            (message b unique i)
            (new_request (opcode_of i) unique i)
            m
          >>= λ (req, m'). ok (message b unique i, req, m'))
  unfolding serve
  serve-message (lookup parent_ino name) room small =
      rw (append_fits (addressed b unique (lookup parent_ino name)) _ refl room small)
  serve-message (getattr ino) room small =
      rw (append_fits (addressed b unique (getattr ino)) _ refl room small)
  serve-message (opens ino flags) room small =
      rw (append_fits (addressed b unique (opens ino flags)) _ refl room small)
  serve-message (read ino fh offset size) room small =
      rw (append_fits (addressed b unique (read ino fh offset size)) _ refl room small)
  serve-message (readdir ino fh offset size) room small =
      rw (append_fits (addressed b unique (readdir ino fh offset size)) _ refl room small)

  -- A request whose message is longer than the buffer behind the header, as one with a long enough
  -- name is, makes the daemon write past the end of its buffer.
  pub serve_overflow :
      (i : Input)
      → length b.body < length (payload i)
      → serve se b (new_request (opcode_of i) unique i) m ≡ fault
  unfolding serve
  serve_overflow (lookup parent_ino name) over =
      rw (append_overflows (addressed b unique (lookup parent_ino name)) _ refl over)
  serve_overflow (getattr ino) over =
      rw (append_overflows (addressed b unique (getattr ino)) _ refl over)
  serve_overflow (opens ino flags) over =
      rw (append_overflows (addressed b unique (opens ino flags)) _ refl over)
  serve_overflow (read ino fh offset size) over =
      rw (append_overflows (addressed b unique (read ino fh offset size)) _ refl over)
  serve_overflow (readdir ino fh offset size) over =
      rw (append_overflows (addressed b unique (readdir ino fh offset size)) _ refl over)

-- A request whose opcode is 0 or above 5 is answered with -ENOSYS by the daemon itself, its
-- semaphore raised once; the session and the heap play no part.
pub serve-unknown :
    (se : Session) (b : Buffer) (req : Request) (m : Mem)
    → req.opcode ≡ 0 ⊎ 5 < req.opcode
    → serve se b req m ≡ ok (reset_header b req, answer req (neg enosys) none 0, m)
unfolding serve find_entry dispatch_table serve_entry
serve-unknown se b req m h = ground (arith, h)
