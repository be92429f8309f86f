-- ===== src/Bio/Calls.antt =====
-- BoringSSL as a caller of the BIO: a program of callback calls, and how it runs.
use btls.Prelude.{ℕ, ℤ, pos, List, [], ◌++◌, length, ◌≡◌, sym, ◌∙◌, ap, append_assoc, append-nil}
use btls.Bio.{Stream, Retry, Bio, bwrite, bread, ctrl, ctrl_flush}

-- Whatever a function of BoringSSL does to its BIO: it ends with a value, or makes a call and goes
-- on with what the call returned and the retry flags that it left.
pub data Prog (A : Type 0) : Type 0 where
  done : A → Prog A
  bio_write : List ℕ → (ℤ → Retry → Prog A) → Prog A
  bio_read : ℕ → (ℤ × List ℕ → Retry → Prog A) → Prog A
  bio_flush : (ℤ → Retry → Prog A) → Prog A

module _ {S A : Type 0} (st : Stream S) where
  unfoldable pub run : Prog A → Bio S → A × Bio S
  run (done a) b = (a, b)
  run (bio_write bytes k) b =
      let (r, b') = bwrite st b bytes (pos (length bytes)) in run (k r b'.retry) b'
  run (bio_read room k) b = let (r, b') = bread st b (pos room) in run (k r b'.retry) b'
  run (bio_flush k) b = let (r, b') = ctrl st b ctrl_flush in run (k r b'.retry) b'

  -- The bytes that the program hands to `bwrite` in that run, in order.
  unfoldable pub offered : Prog A → Bio S → List ℕ
  offered (done a) b = []
  offered (bio_write bytes k) b =
      let (r, b') = bwrite st b bytes (pos (length bytes)) in bytes ++ offered (k r b'.retry) b'
  offered (bio_read room k) b = let (r, b') = bread st b (pos room) in offered (k r b'.retry) b'
  offered (bio_flush k) b = let (r, b') = ctrl st b ctrl_flush in offered (k r b'.retry) b'

-- `P` of every value that the program can end with, whatever the calls return.
abbrev pub Ends : {A : Type 0} → (A → Type 0) → Prog A → Type 0
Ends P (done a) = P a
Ends P (bio_write bytes k) = (r : ℤ) (f : Retry) → Ends P (k r f)
Ends P (bio_read room k) = (r : ℤ × List ℕ) (f : Retry) → Ends P (k r f)
Ends P (bio_flush k) = (r : ℤ) (f : Retry) → Ends P (k r f)

pub run-Ends :
    {S A : Type 0} (st : Stream S) (P : A → Type 0) (p : Prog A) (b : Bio S)
    → Ends P p
    → P (run st p b).0
unfolding run
run-Ends st P (done a) b e = e
run-Ends st P (bio_write bytes k) b e =
    let (r, b') = bwrite st b bytes (pos (length bytes)) in
    run-Ends st P (k r b'.retry) b' (e r b'.retry)
run-Ends st P (bio_read room k) b e =
    let (r, b') = bread st b (pos room) in run-Ends st P (k r b'.retry) b' (e r b'.retry)
run-Ends st P (bio_flush k) b e =
    let (r, b') = ctrl st b ctrl_flush in run-Ends st P (k r b'.retry) b' (e r b'.retry)

-- An invariant of the callbacks, and a log to which only `bwrite` adds, and just its bytes.
pub record Logs {S : Type 0} (st : Stream S) (I : Bio S → Type 0) (log : Bio S → List ℕ)
    : Type 0 where
  pub writes :
      (b : Bio S) (bytes : List ℕ)
      → I b
      → let b' = (bwrite st b bytes (pos (length bytes))).1 in I b' × (log b' ≡ log b ++ bytes)
  pub reads :
      (b : Bio S) (room : ℕ) → I b → let b' = (bread st b (pos room)).1 in I b' × (log b' ≡ log b)
  pub flushes : (b : Bio S) → I b → let b' = (ctrl st b ctrl_flush).1 in I b' × (log b' ≡ log b)

-- Then any program keeps the invariant and adds what it offered, in order.
pub run-Logs :
    {S A : Type 0} (st : Stream S) (I : Bio S → Type 0) (log : Bio S → List ℕ)
    → Logs st I log
    → (p : Prog A) (b : Bio S) → I b
    → I (run st p b).1 × (log (run st p b).1 ≡ log b ++ offered st p b)
unfolding run offered
run-Logs st I log l (done a) b i = (i, sym (append-nil (log b)))
run-Logs st I log l (bio_write bytes k) b i =
    let (r, b') = bwrite st b bytes (pos (length bytes)) in
    let one = l.writes b bytes i in
    let rest = run-Logs st I log l (k r b'.retry) b' one.0 in
    (
      rest.0,
      rest.1
          ∙ ap (λ x. x ++ offered st (k r b'.retry) b') one.1
          ∙ append_assoc (log b) bytes (offered st (k r b'.retry) b'),
    )
run-Logs st I log l (bio_read room k) b i =
    let (r, b') = bread st b (pos room) in
    let one = l.reads b room i in
    let rest = run-Logs st I log l (k r b'.retry) b' one.0 in
    (rest.0, rest.1 ∙ ap (λ x. x ++ offered st (k r b'.retry) b') one.1)
run-Logs st I log l (bio_flush k) b i =
    let (r, b') = ctrl st b ctrl_flush in
    let one = l.flushes b i in
    let rest = run-Logs st I log l (k r b'.retry) b' one.0 in
    (rest.0, rest.1 ∙ ap (λ x. x ++ offered st (k r b'.retry) b') one.1)
