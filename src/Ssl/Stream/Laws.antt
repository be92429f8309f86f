-- ===== src/Ssl/Stream/Laws.antt =====
-- What the calls of `SslStream` do to the sealed plaintext and to the stream under the BIO.
use btls.Prelude.{ℕ, ◌≡◌, refl, ◌∙◌, ℤ, Option, none, some, List, [], ◌∷◌, ◌++◌, take-length}
use btls.Io.{ErrorCode, ErrorStack, ssl, syscall, want_read, want_write, ok, err}
use btls.Bio.{Stream, Bio, Retry, Caught, returned, panicked, bwrite, bread, ctrl, caught}
use btls.Bio.Calls.{Logs}
use btls.Ssl.Boring.{Boring, IsBoring}
use btls.Ssl.Stream.{
  SslStream, Outcome, value, error, unwound, make_error, after_check, cause_of, syscall_cause,
  bio_cause,
}

-- A stream with an invariant `J` and a log to which only `write` adds, and all of its bytes.
pub record StreamLogs {S : Type 0} (st : Stream S) (J : S → Type 0) (log : S → List ℕ)
    : Type 0 where
  pub writes : (b : List ℕ) (s : S) → J s → J (st.write b s).1 × (log (st.write b s).1 ≡ log s ++ b)
  pub reads : (n : ℕ) (s : S) → J s → J (st.read n s).1 × (log (st.read n s).1 ≡ log s)
  pub flushes : (s : S) → J s → J (st.flush s).1 × (log (st.flush s).1 ≡ log s)

caught-stream {ℓ} :
    {S A : Type 0} {R : Type ℓ} (f : Retry) (failed : R) (v : A → R) (b : Bio S) (s : S)
    (c : Caught A)
    → (caught f failed v b s c).1.stream ≡ s
caught-stream f failed v b s (returned (ok a)) = refl
caught-stream f failed v b s (returned (err e)) = refl
caught-stream f failed v b s (panicked p) = refl

-- The callbacks of the BIO do to the stream what its operations do.
pub bio-Logs :
    {S : Type 0} (st : Stream S) (J : S → Type 0) (log : S → List ℕ)
    → StreamLogs st J log
    → Logs st (λ b. J b.stream) (λ b. log b.stream)
unfolding bwrite bread ctrl
bio-Logs st J log l = record {
  writes = λ b bytes j. rw (caught-stream, take-length bytes) (l.writes bytes b.stream j);
  reads = λ b room j. rw caught-stream (l.reads room b.stream j);
  flushes = λ b j. rw caught-stream (l.flushes b.stream j);
}

-- Finding the cause of an error touches neither the stream nor what is sealed.
pub record Quiet {C S : Type 0} (g : Boring C) (s s' : SslStream C S) : Type 0 where
  pub stream_same : s'.bio.stream ≡ s.bio.stream
  pub sealed_same : g.sealed s'.conn ≡ g.sealed s.conn
  pub opened_same : g.opened s'.conn ≡ g.opened s.conn

module _ {C S : Type 0} {g : Boring C} (l : IsBoring g) where
  bio_cause-Quiet : (st : Stream S) (s : SslStream C S) → Quiet g s (bio_cause g st s).1
  unfolding bio_cause
  bio_cause-Quiet st s = record { stream_same = refl; sealed_same = refl; opened_same = refl }

  syscall_cause-Quiet :
      (st : Stream S) (es : ErrorStack) (c : C) (s : SslStream C S)
      → g.sealed c ≡ g.sealed s.conn
      → g.opened c ≡ g.opened s.conn
      → Quiet g s (syscall_cause g st (es, c) s).1
  unfolding syscall_cause
  syscall_cause-Quiet st [] c s e f = record {
    stream_same = refl;
    sealed_same = e;
    opened_same = f;
  }
  syscall_cause-Quiet st (x ∷ es) c s e f = record {
    stream_same = refl;
    sealed_same = e;
    opened_same = f;
  }

  cause_of-Quiet :
      (st : Stream S) (code : ErrorCode) (s : SslStream C S) → Quiet g s (cause_of g st code s).1
  unfolding cause_of
  cause_of-Quiet st ssl s = record {
    stream_same = refl;
    sealed_same = (l.pops s.conn).0;
    opened_same = (l.pops s.conn).1;
  }
  cause_of-Quiet st syscall s =
      syscall_cause-Quiet st (g.err_get s.conn).0 (g.err_get s.conn).1 s (l.pops s.conn).0
        (l.pops s.conn).1
  cause_of-Quiet st want_read s = bio_cause-Quiet st s
  cause_of-Quiet st want_write s = bio_cause-Quiet st s
  cause_of-Quiet st _ s = record { stream_same = refl; sealed_same = refl; opened_same = refl }

  -- No value, and a quiet state.
  abbrev pub Fails : {A : Type 0} → SslStream C S → Outcome A × SslStream C S → Type 0
  Fails s (value a, s') = ⊥
  Fails s (error e, s') = Quiet g s s'
  Fails s (unwound p, s') = Quiet g s s'

  after_check-Fails :
      (A : Type 0) (st : Stream S) (ret : ℤ) (p : Option ℕ) (b : Bio S) (s : SslStream C S)
      → b.stream ≡ s.bio.stream
      → Fails {A = A} s (after_check g st ret (p, b) s)
  unfolding after_check
  after_check-Fails A st ret (some p) b s e = record {
    stream_same = e;
    sealed_same = refl;
    opened_same = refl;
  }
  after_check-Fails A st ret none b s e =
      let q = cause_of-Quiet st (g.ssl_get_error s.conn b.retry ret) (record s { bio = b }) in
      record {
        stream_same = q.stream_same ∙ e;
        sealed_same = q.sealed_same;
        opened_same = q.opened_same;
      }

  pub make_error-Fails :
      (A : Type 0) (st : Stream S) (ret : ℤ) (s : SslStream C S)
      → Fails {A = A} s (make_error g st ret s)
  unfolding make_error
  make_error-Fails A st ret s = after_check-Fails A st ret s.bio.panic _ s refl
