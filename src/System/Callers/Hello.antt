-- ===== src/System/Callers/Hello.antt =====
-- Many callers of apps/fuse-correctness-test/hello_ll.c: the requests that the driver makes on its tree
-- are answered.
use ukfs_fuse.Common.{
  ℕ, suc, ◌^◌, ◌≤◌, ◌<◌, ◌≡◌, refl, ap, ◌∙◌, arith, Bool, true, false, none, some, pos, neg,
  if◌then◌else◌, List, [], ◌∷◌, length, length-append, IsCString, ok, ◌>>=◌, Mem, malloc, free,
}
use ukfs_fuse.Libfuse.{answer}
use ukfs_fuse.Errno.{enoent}
use ukfs_fuse.Request.{Payload, Request, Input, lookup, getattr, opens, read, readdir, new_request}
use ukfs_fuse.Daemon.{Buffer}
use ukfs_fuse.Daemon.Wire.{payload, message, opcode_of, length-message}
use ukfs_fuse.Daemon.Direct.{InRange, start_direct, serve-direct}
use ukfs_fuse.Daemon.Loop.{serve}
use ukfs_fuse.Hello.Answers.{hello_session, unrefused}
use ukfs_fuse.System.Answer.{hello-IsReady, start_read, start_open, read_payload, open_payload}
use ukfs_fuse.System.Attributes.{is_hello, start_getattr, start_lookup, getattr_payload}
use ukfs_fuse.Hello.{hello_stat}
use ukfs_fuse.Request.{zero_stat}
use ukfs_fuse.System.Listing.{start_readdir, readdir_payload}
use ukfs_fuse.System.Callers.{Serves}

-- The arguments of a request that the driver makes on the tree, for a buffer with room for `room` bytes
-- behind the header.
pub data IsServable (room : ℕ) : Input → Type 0 where
  of_name :
      (parent : ℕ) {name : List ℕ}
      → IsCString name
      → length name < room
      → IsServable room (lookup parent name)
  of_inode : (ino : ℕ) → IsServable room (getattr ino)
  of_open : IsServable room (opens 2 0)
  of_read :
      {fh off size : ℕ}
      → fh < 2 ^ 64
      → off < 2 ^ 63
      → size < 2 ^ 32
      → IsServable room (read 2 fh off size)
  of_list : {cursor : ℕ} → cursor < 2 ^ 63 → IsServable room (readdir 1 0 cursor 4096)

pub data Servable (room : ℕ) : Request → Type 0 where
  servable :
      (unique : ℕ) (i : Input)
      → IsServable room i
      → Servable room (new_request (opcode_of i) unique i)

-- A daemon's buffer that is big enough and not too big, and a heap that refuses nothing.
pub record IsRoomy (room : ℕ) (b : Buffer) (m : Mem) : Type 0 where
  pub roomy : room ≤ length b.body
  pub small : length b.body < 2 ^ 31
  pub quiet : m.refusals ≡ []

-- What a service needs of its arguments.
record IsSent (room : ℕ) (i : Input) : Type 0 where
  in_range : InRange i
  short : length (payload i) ≤ room
  started :
      (req : Request) (live : ℕ)
      → (r : Request) × (live' : ℕ) × (start_direct hello_session i req (malloc (unrefused live))
          ≡ ok (r, unrefused live'))
        × (r.done ≡ suc req.done)

-- Either answer of a handler that knows the file or does not.
abbrev one_of : Bool → Request → ℕ → ℕ → Payload → Request × Mem
one_of known req live len p =
    if known
    then (answer req (pos 0) (some p) len, unrefused (suc live))
    else (answer req (neg enoent) none 0, unrefused live)

one_of_up :
    (known : Bool) (req : Request) (live len : ℕ) (p : Payload)
    → (r : Request) × (live' : ℕ) × (one_of known req live len p ≡ (r, unrefused live'))
      × (r.done ≡ suc req.done)
one_of_up true req live len p = (_, _, refl, omega arith)
one_of_up false req live len p = (_, _, refl, omega arith)

malloc_quiet : (m : Mem) → m.refusals ≡ [] → (malloc m).1.refusals ≡ []
unfolding malloc
malloc_quiet m h = ground (arith, h)

module _ (room : ℕ) (wide : 40 ≤ room) where
  servable-IsSent : (i : Input) → IsServable room i → IsSent room i
  servable-IsSent i (of_name parent {name} text short) = record {
    in_range = text;
    short = omega (arith, short, length-append name (0 ∷ []));
    started = λ req live.
        let (r, live', e, up) = one_of_up (is_hello parent name) req live _ _ in
        (r, live', start_lookup req live parent name ∙ ap ok e, up);
  }
  servable-IsSent i (of_inode ino) = record {
    in_range = tt;
    short = omega (arith, wide, getattr_payload ino);
    started = λ req live.
        let (r, live', e, up) = one_of_up (hello_stat ino zero_stat).1 req live _ _ in
        (r, live', start_getattr req live ino ∙ ap ok e, up);
  }
  servable-IsSent i of_open = record {
    in_range = omega arith;
    short = omega (arith, wide, open_payload);
    started = λ req live. (_, _, start_open req live, omega arith);
  }
  servable-IsSent i (of_read {fh} {off} {size} f o s) = record {
    in_range = (f, omega (arith, o), s);
    short = omega (arith, wide, read_payload fh off size);
    started = λ req live. (_, _, start_read req live fh off size o, omega arith);
  }
  servable-IsSent i (of_list {cursor} o) = record {
    in_range = (omega arith, omega (arith, o), omega arith);
    short = omega (arith, wide, readdir_payload cursor);
    started = λ req live. (_, _, start_readdir req live cursor o, omega arith);
  }

  serve-IsSent :
      (b : Buffer) (m : Mem) (unique : ℕ) (i : Input)
      → IsRoomy room b m
      → IsSent room i
      → (b' : Buffer) × (r' : Request) × (m' : Mem) × (serve hello_session b
            (new_request (opcode_of i) unique i)
            m
          ≡ ok (b', r', m'))
        × (r'.done ≡ 1)
        × IsRoomy room b' m'
  serve-IsSent b m unique i g s =
      let (r, live', e, up) = s.started (new_request (opcode_of i) unique i) m.live in
      let same : m ≡ unrefused m.live = ap (λ q. record { refusals = q; live = m.live }) g.quiet in
      let fits : length (payload i) ≤ length b.body = omega (arith, g.roomy, s.short) in
      (
        message b unique i,
        r,
        unrefused live',
        serve-direct hello_session hello-IsReady b unique i m s.in_range fits
              (omega (arith, fits, g.small))
            ∙ ap
                (λ h.
                  start_direct hello_session i (new_request (opcode_of i) unique i) (malloc h)
                  >>= λ (req, m'). ok (message b unique i, req, m'))
                same
            ∙ ap (λ x. x >>= λ (req, m'). ok (message b unique i, req, m')) e,
        up,
        record {
          roomy = omega (arith, g.roomy, length-message b unique i fits);
          small = omega (arith, g.small, length-message b unique i fits);
          quiet = refl;
        },
      )

  -- Every request that the driver makes on the tree is answered, by a daemon whose buffer has room.
  pub hello-Serves : Serves hello_session (Servable room) (IsRoomy room)
  unfolding free
  hello-Serves = record {
    after_malloc =
        λ b m g. record { roomy = g.roomy; small = g.small; quiet = malloc_quiet m g.quiet };
    after_free = λ b m g. record { roomy = g.roomy; small = g.small; quiet = g.quiet };
    answers = λ b m r g f. answered b m r g f;
  }
    where
      answered :
          (b : Buffer) (m : Mem) (r : Request)
          → IsRoomy room b m
          → Servable room r
          → (b' : Buffer) × (r' : Request) × (m' : Mem) × (serve hello_session b r m
              ≡ ok (b', r', m'))
            × (r'.done ≡ suc r.done)
            × IsRoomy room b' m'
      answered b m r g (servable unique i s) = serve-IsSent b m unique i g (servable-IsSent i s)
