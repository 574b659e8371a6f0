-- ===== src/Clients.antt =====
-- apps/fuse-correctness-test/main.c: the suite of tests as a client of a file system. The system
-- calls are Unikraft's, so they are given, over a state that is not known.
pub mod Checks
pub mod Attrs
pub mod Read
pub mod Listing
pub mod Seek
pub mod Main
pub mod Counted
pub mod Tree
pub mod Simulation
pub mod Passes
pub mod Smoke
pub mod Balance
use ukfs_fuse.Common.{
  ℕ, suc, ◌+◌, ◌*◌, ◌/◌, ◌%◌, ◌^◌, Bool, true, false, not, ◌&&◌, ◌||◌, List, take, length, ◌==◌,
  same_bytes, if◌then◌else◌, Option, none, some, [], ◌∷◌, Exec, ok, blocked, fault,
}
use ukfs_fuse.Request.{Stat}

-- What a system call returns: a value, or -1 (a null pointer, for opendir) with its `errno`.
pub data Ret (A : Type 0) : Type 0 where
  done : A → Ret A
  failed : ℕ → Ret A

pub data Whence : Type 0 where
  seek_set : Whence
  seek_cur : Whence
  seek_end : Whence

-- An offset for lseek, which may be negative.
pub data Shift : Type 0 where
  forward : ℕ → Shift
  backward : ℕ → Shift

pub record DirEntry : Type 0 where
  pub d_name : List ℕ
  pub d_ino : ℕ

-- The system calls and thread functions that the suite makes. A read gives the bytes that it stores.
pub record Posix (S : Type 0) : Type 0 where
  pub stat : List ℕ → S → Ret Stat × S
  pub fstat : ℕ → S → Ret Stat × S
  pub open_rdonly : List ℕ → S → Ret ℕ × S
  pub close : ℕ → S → S
  pub read : ℕ → ℕ → S → Ret (List ℕ) × S
  pub pread : ℕ → ℕ → ℕ → S → Ret (List ℕ) × S
  pub lseek : ℕ → Shift → Whence → S → Ret ℕ × S
  pub opendir : List ℕ → S → Ret ℕ × S
  pub readdir : ℕ → S → Option DirEntry × S
  pub closedir : ℕ → S → S
  pub access : List ℕ → ℕ → S → Ret (Unit {0}) × S
  pub thread_create : List (List ℕ) → S → Bool × S
  pub thread_add : S → S
  pub session_registered : S → Bool × S
  pub yield : S → S
  pub mount : List ℕ → List ℕ → List ℕ → S → Ret (Unit {0}) × S

-- The state of the system and the two static counters.
pub record Suite (S : Type 0) : Type 0 where
  pub os : S
  pub test_passed : ℕ
  pub test_failed : ℕ

-- A part of the suite. `blocked` means that the rounds of a loop are used up.
abbrev pub M : Type 0 → Type 0 → Type 0
M S A = Suite S → Exec (A × Suite S)

module _ {S : Type 0} where
  abbrev pub go_on : {A B : Type 0} → Exec (A × Suite S) → (A → M S B) → Exec (B × Suite S)
  go_on (ok (a, t)) f = f a t
  go_on blocked f = blocked
  go_on fault f = fault

  infixl 5 ◌>>=◌ ◌>>◌
  unfoldable pub ◌>>=◌ : {A B : Type 0} → M S A → (A → M S B) → M S B
  ◌>>=◌ m f s = go_on (m s) f

  unfoldable pub ◌>>◌ : {A B : Type 0} → M S A → M S B → M S B
  unfolding ◌>>=◌
  m >> k = m >>= λ _. k

  unfoldable pub pure : {A : Type 0} → A → M S A
  pure a s = ok (a, s)

  -- A call that returns something, and one that returns nothing.
  unfoldable pub sys : {A : Type 0} → (S → A × S) → M S A
  sys f s = ok ((f s.os).0, record s { os = (f s.os).1 })

  unfoldable pub run : (S → S) → M S (Unit {0})
  run f s = ok (tt, record s { os = f s.os })

  -- `TEST_PASS` and `TEST_FAIL`, without what they print; the counters are `unsigned int`.
  unfoldable pub test_pass : M S (Unit {0})
  test_pass s = ok (tt, record s { test_passed = (s.test_passed + 1) % 2 ^ 32 })

  unfoldable pub test_fail : M S (Unit {0})
  test_fail s = ok (tt, record s { test_failed = (s.test_failed + 1) % 2 ^ 32 })

  -- `if (call failed) { on_error; return; }` and the rest.
  unfoldable pub if_failed : {A B : Type 0} → Ret A → M S B → (A → M S B) → M S B
  if_failed (done a) on_error rest = rest a
  if_failed (failed e) on_error rest = on_error

  -- `if (pointer)`: what to do without one, and with it.
  unfoldable pub if_null : {A B : Type 0} → Option A → M S B → (A → M S B) → M S B
  if_null none without rest = without
  if_null (some a) without rest = rest a

  unfoldable pub cond : {A : Type 0} → Bool → M S A → M S A → M S A
  cond true m k = m
  cond false m k = k

-- `S_ISDIR`, `S_ISREG`, and the bits of a mode.
abbrev pub s_ifdir : ℕ
s_ifdir = 0o40000

abbrev pub s_ifreg : ℕ
s_ifreg = 0o100000

-- `mode & S_IFMT`
abbrev pub type_bits : ℕ → ℕ
type_bits mode = mode / 4096 % 16 * 4096

-- `mode & 0777`
abbrev pub permissions : ℕ → ℕ
permissions mode = mode % 512

-- Whether a call returned this offset.
abbrev pub is_at : Ret ℕ → ℕ → Bool
is_at (done pos) n = pos == n
is_at (failed e) n = false

-- `n == len && memcmp(buf, expected, len) == 0`
abbrev pub stored : Ret (List ℕ) → ℕ → List ℕ → Bool
stored (done buf) n expected = length buf == n && same_bytes (take n buf) (take n expected)
stored (failed e) n expected = false

-- The names in the tests.
abbrev pub root_path : List ℕ
root_path = b'/' ∷ []

abbrev pub hello_path : List ℕ
hello_path = b'/' ∷ b'h' ∷ b'e' ∷ b'l' ∷ b'l' ∷ b'o' ∷ []

abbrev pub nonexistent_path : List ℕ
nonexistent_path =
    b'/' ∷ b'n' ∷ b'o' ∷ b'n' ∷ b'e' ∷ b'x' ∷ b'i' ∷ b's' ∷ b't' ∷ b'e' ∷ b'n' ∷ b't' ∷ []
