-- ===== src/System/Callers.antt =====
-- Many callers of the driver at once: threads that wait in `uk_semaphore_down(&req.done)` of
-- libs/ukfusefs/ukfs-fuse.c while the daemon thread of libs/ukfusefs/fuse_daemon.c serves one
-- request after the other. A step is an operation of the queue, a service, or a wakeup; that an
-- operation of the queue can be taken as one step is shown in Queue.Alone.
pub mod Owed
pub mod Invariant
pub mod Progress
pub mod Hello
use ukfs_fuse.Common.{
  ℕ, zero, suc, ◌+◌, ◌%◌, ◌^◌, ◌≡◌, Option, none, some, List, [], ◌∷◌, length, replicate, ok, ◌==◌,
  if◌then◌else◌, Mem, malloc, free,
}
use ukfs_fuse.Request.{Request, Input, new_request}
use ukfs_fuse.Queue.{Queue, fuse_ukfs_queue_init, fuse_ukfs_queue_push, fuse_ukfs_queue_pop}
use ukfs_fuse.Queue.Family.{get_elem?, set, weigh}
use ukfs_fuse.Daemon.{Buffer}
use ukfs_fuse.Daemon.Loop.{serve}
use ukfs_fuse.Libfuse.{Session}

-- A caller between two requests; or one that waits, with its request as it submitted it and as it
-- stands in its memory now.
pub data Caller : Type 0 where
  idle : Caller
  waiting : (asked now : Request) → Caller

-- The callers; the queue, which links the requests by their callers; the caller whose request the
-- daemon serves; the next number, the daemon's buffer, and the heap.
pub record Office : Type 0 where
  pub callers : List Caller
  pub queue : Queue ℕ
  pub serving : Option ℕ
  pub unique : ℕ
  pub b : Buffer
  pub m : Mem

abbrev pub open_office : ℕ → ℕ → Buffer → Mem → Office
open_office n unique b m = record {
  callers = replicate n idle;
  queue = fuse_ukfs_queue_init;
  serving = none;
  unique = unique;
  b = b;
  m = m;
}

module _ (se : Session) (Fits : Request → Type 0) where
  -- What callers do of their own: submit a request that fits, and use the heap.
  pub data Submits : Office → Office → Type 0 where
    submit :
        {s : Office} (i opcode : ℕ) (input : Input) {q : Queue ℕ}
        → get_elem? s.callers i ≡ some idle
        → Fits (new_request opcode s.unique input)
        → fuse_ukfs_queue_push i s.queue ≡ ok q
        → Submits s (record s {
          callers =
              set s.callers i
                (waiting (new_request opcode s.unique input) (new_request opcode s.unique input));
          queue = q;
          unique = (s.unique + 1) % 2 ^ 64;
        })
    allocates : {s : Office} → Submits s (record s { m = (malloc s.m).1 })
    releases : {s : Office} → Submits s (record s { m = free s.m })

  -- The daemon pops and serves, and a caller whose semaphore is up goes on.
  pub data Works : Office → Office → Type 0 where
    pops :
        {s : Office} (i : ℕ) {q : Queue ℕ}
        → s.serving ≡ none
        → fuse_ukfs_queue_pop s.queue ≡ ok (i, q)
        → Works s (record s { serving = some i; queue = q })
    serves :
        {s : Office} (i : ℕ) {asked now now' : Request} {b' : Buffer} {m' : Mem}
        → s.serving ≡ some i
        → get_elem? s.callers i ≡ some (waiting asked now)
        → serve se s.b now s.m ≡ ok (b', now', m')
        → Works s (record s {
          callers = set s.callers i (waiting asked now');
          serving = none;
          b = b';
          m = m';
        })
    wakes :
        {s : Office} (i n : ℕ) {asked now : Request}
        → get_elem? s.callers i ≡ some (waiting asked now)
        → now.done ≡ suc n
        → Works s (record s { callers = set s.callers i idle })

  module _ (Good : Buffer → Mem → Type 0) where
    -- The states that the callers and the daemon can reach.
    pub data Reach : Office → Type 0 where
      opened : (n unique : ℕ) {b : Buffer} {m : Mem} → Good b m → Reach (open_office n unique b m)
      submits : {s t : Office} → Reach s → Submits s t → Reach t
      works : {s t : Office} → Reach s → Works s t → Reach t

    -- What is known of the daemon's buffer and of the heap stays true, and a request that fits is
    -- answered.
    pub record Serves : Type 0 where
      pub after_malloc : (b : Buffer) (m : Mem) → Good b m → Good b (malloc m).1
      pub after_free : (b : Buffer) (m : Mem) → Good b m → Good b (free m)
      pub answers :
          (b : Buffer) (m : Mem) (r : Request)
          → Good b m
          → Fits r
          → (b' : Buffer) × (r' : Request) × (m' : Mem) × (serve se b r m ≡ ok (b', r', m'))
            × (r'.done ≡ suc r.done)
            × Good b' m'

  -- Steps of the daemon and of the callers that are woken, and no other.
  pub data Run : ℕ → Office → Office → Type 0 where
    stopped : {s : Office} → Run zero s s
    then_works : {n : ℕ} {s t u : Office} → Works s t → Run n t u → Run (suc n) s u

-- How often the daemon owes a caller something.
abbrev pub times : ℕ → List ℕ → ℕ
times i [] = 0
times i (x ∷ xs) = (if x == i then 1 else 0) + times i xs

abbrev pub held_by : ℕ → Option ℕ → ℕ
held_by i none = 0
held_by i (some x) = if x == i then 1 else 0

-- The steps that are left for a caller: a request that waits has to be served, and an answer read.
abbrev pub steps_left : Caller → ℕ
steps_left idle = 0
steps_left (waiting asked now) = if now.done == 0 then 2 else 1

abbrev pub work : Office → ℕ
work s = weigh steps_left s.callers + length s.queue.head
