-- ===== src/Ssl/Stream/Growth.antt =====
-- What the calls of `SslStream` in btls/src/ssl/mod.rs send to a stream that logs its writes.
use btls.Prelude.{
  ℕ, zero, suc, ◌≡◌, sym, ap, ◌∙◌, ℤ, pos, negsuc, c_int_max, min, none, some, List, [], ◌∷◌, ◌++◌,
  take, length, append-nil, append_assoc, if_both, subst,
}
use btls.Bio.{Stream}
use btls.Bio.Calls.{Prog, run, offered, run-Logs}
use btls.Ssl.Boring.{Boring, IsBoring}
use btls.Ssl.Stream.{
  SslStream, Outcome, value, error, unwound, make_error, positive, call, write_some, ssl_write,
  ssl_read, shutdown, shutdown_result, ShutdownResult, Tried, retries, reads_nothing, after_write,
  write, after_read, read_uninit,
}
use btls.Ssl.Stream.Laws.{Quiet, Fails, make_error-Fails, StreamLogs, bio-Logs}

module _ {C S : Type 0} {g : Boring C} (l : IsBoring g) {st : Stream S} {J : S → Type 0}
    {log : S → List ℕ} (sl : StreamLogs st J log) where
  -- The invariant holds after, and the log is what it was and then more.
  pub record Grew (s s' : SslStream C S) : Type 0 where
    pub keeps : J s'.bio.stream
    pub out : List ℕ
    pub grew : log s'.bio.stream ≡ log s.bio.stream ++ out

  pub Grew-refl : (s : SslStream C S) → J s.bio.stream → Grew s s
  Grew-refl s j = record { keeps = j; out = []; grew = sym (append-nil (log s.bio.stream)) }

  pub Grew-trans : (s t u : SslStream C S) → Grew s t → Grew t u → Grew s u
  Grew-trans s t u a b = record {
    keeps = b.keeps;
    out = a.out ++ b.out;
    grew = b.grew ∙ ap (λ x. x ++ b.out) a.grew ∙ append_assoc (log s.bio.stream) a.out b.out;
  }

  Quiet-Grew : (s t u : SslStream C S) → Grew s t → Quiet g t u → Grew s u
  Quiet-Grew s t u a q = record {
    keeps = subst J (sym q.stream_same) a.keeps;
    out = a.out;
    grew = ap log q.stream_same ∙ a.grew;
  }

  run-Grew :
      {A : Type 0} (p : Prog A) (s : SslStream C S) (c : C)
      → J s.bio.stream
      → Grew s (record { conn = c; bio = (run st p s.bio).1 })
  run-Grew p s c j =
      let r = run-Logs st (λ b. J b.stream) (λ b. log b.stream) (bio-Logs st J log sl) p s.bio j in
      record { keeps = r.0; out = offered st p s.bio; grew = r.1 }

  Fails-Grew :
      {A : Type 0} (s t : SslStream C S) (r : Outcome A × SslStream C S)
      → Grew s t
      → Fails l t r
      → Grew s r.1
  Fails-Grew s t (value a, u) w f = absurd f
  Fails-Grew s t (error e, u) w f = Quiet-Grew s t u w f
  Fails-Grew s t (unwound p, u) w f = Quiet-Grew s t u w f

  positive-Grew :
      {A : Type 0} (ret : ℤ) (a : A) (s t : SslStream C S)
      → Grew s t
      → Grew s (positive g st ret a t).1
  unfolding positive
  positive-Grew {A} (pos zero) a s t w =
      Fails-Grew s t (make_error g st (pos zero) t) w (make_error-Fails l A st (pos zero) t)
  positive-Grew (pos (suc n)) a s t w = w
  positive-Grew {A} (negsuc n) a s t w =
      Fails-Grew s t (make_error g st (negsuc n) t) w (make_error-Fails l A st (negsuc n) t)

  pub ssl_write-Grew :
      (buf : List ℕ) (s : SslStream C S) → J s.bio.stream → Grew s (ssl_write g st buf s).1
  unfolding ssl_write write_some
  ssl_write-Grew [] s j = Grew-refl s j
  ssl_write-Grew (x ∷ xs) s j =
      positive-Grew (call g st p s).0 _ s (call g st p s).1 (run-Grew p s (run st p s.bio).0.1 j)
    where
      p : Prog (ℤ × C)
      p = g.ssl_write s.conn (take (min c_int_max (length (x ∷ xs))) (x ∷ xs))

  pub ssl_read-Grew :
      (room : ℕ) (s : SslStream C S) → J s.bio.stream → Grew s (ssl_read g st room s).1
  unfolding ssl_read
  ssl_read-Grew zero s j = Grew-refl s j
  ssl_read-Grew (suc room) s j =
      positive-Grew (run st p s.bio).0.0 _ s _ (run-Grew p s (run st p s.bio).0.2 j)
    where
      p : Prog (ℤ × List ℕ × C)
      p = g.ssl_read s.conn (min c_int_max (suc room))

  shutdown_result-Grew :
      (ret : ℤ) (s t : SslStream C S) → Grew s t → Grew s (shutdown_result g st ret t).1
  unfolding shutdown_result
  shutdown_result-Grew (pos zero) s t w = w
  shutdown_result-Grew (pos (suc zero)) s t w = w
  shutdown_result-Grew (pos (suc (suc n))) s t w =
      Fails-Grew s t (make_error g st (pos (suc (suc n))) t) w
        (make_error-Fails l ShutdownResult st (pos (suc (suc n))) t)
  shutdown_result-Grew (negsuc n) s t w =
      Fails-Grew s t (make_error g st (negsuc n) t) w
        (make_error-Fails l ShutdownResult st (negsuc n) t)

  pub shutdown-Grew : (s : SslStream C S) → J s.bio.stream → Grew s (shutdown g st s).1
  unfolding shutdown
  shutdown-Grew s j =
      shutdown_result-Grew (call g st (g.ssl_shutdown s.conn) s).0 s _
        (run-Grew (g.ssl_shutdown s.conn) s _ j)

  -- The same of a loop that retries: of the state it ends in, if it ends.
  abbrev pub GrewTo : {A : Type 0} → SslStream C S → Tried g st A → Type 0
  GrewTo s none = Unit
  GrewTo s (some (r, s')) = Grew s s'

  GrewTo-trans :
      {A : Type 0} (s t : SslStream C S) (r : Tried g st A) → Grew s t → GrewTo t r → GrewTo s r
  GrewTo-trans s t none a b = tt
  GrewTo-trans s t (some (x, u)) a b = Grew-trans s t u a b

  after_write-Grew :
      (s : SslStream C S) (again : Tried g st ℕ) (r : Outcome ℕ × SslStream C S)
      → Grew s r.1
      → GrewTo s again
      → GrewTo s (after_write g st again r)
  unfolding after_write
  after_write-Grew s again (value n, t) w ih = w
  after_write-Grew s again (error e, t) w ih = if_both (GrewTo s) (retries g st e) ih w
  after_write-Grew s again (unwound p, t) w ih = w

  -- For a BoringSSL that keeps its contract, and a stream that logs its writes and keeps an
  -- invariant: write keeps that invariant and only adds to the log, however many retries it makes,
  -- if it returns within its fuel.
  pub write-Grew :
      (fuel : ℕ) (buf : List ℕ) (s : SslStream C S)
      → J s.bio.stream
      → GrewTo s (write g st fuel buf s)
  unfolding write
  write-Grew zero buf s j = tt
  write-Grew (suc fuel) buf s j =
      let one = ssl_write-Grew buf s j in
      after_write-Grew s (write g st fuel buf (ssl_write g st buf s).1) (ssl_write g st buf s) one (
        GrewTo-trans s (ssl_write g st buf s).1 (write g st fuel buf (ssl_write g st buf s).1) one
          (write-Grew fuel buf (ssl_write g st buf s).1 one.keeps))

  after_read-Grew :
      (s : SslStream C S) (again : Tried g st (List ℕ)) (r : Outcome (List ℕ) × SslStream C S)
      → Grew s r.1
      → GrewTo s again
      → GrewTo s (after_read g st again r)
  unfolding after_read
  after_read-Grew s again (value n, t) w ih = w
  after_read-Grew s again (error e, t) w ih =
      if_both (GrewTo s) (reads_nothing g st e) w (if_both (GrewTo s) (retries g st e) ih w)
  after_read-Grew s again (unwound p, t) w ih = w

  -- For a BoringSSL that keeps its contract, and a stream that logs its writes and keeps an
  -- invariant: read_uninit keeps that invariant and only adds to the log, if it returns within its
  -- fuel.
  pub read_uninit-Grew :
      (fuel room : ℕ) (s : SslStream C S) → J s.bio.stream → GrewTo s (read_uninit g st fuel room s)
  unfolding read_uninit
  read_uninit-Grew zero room s j = tt
  read_uninit-Grew (suc fuel) room s j =
      let one = ssl_read-Grew room s j in
      after_read-Grew s (read_uninit g st fuel room (ssl_read g st room s).1) (ssl_read g st room s)
        one
        (GrewTo-trans s (ssl_read g st room s).1
          (read_uninit g st fuel room (ssl_read g st room s).1) one
          (read_uninit-Grew fuel room (ssl_read g st room s).1 one.keeps))
