-- ===== src/Ssl/Stream/Opening.antt =====
-- The plaintext that `ssl_read_uninit` and `read_uninit` of btls/src/ssl/mod.rs hand out.
use btls.Prelude.{
  ℕ, zero, suc, ◌≤◌, ◌≡◌, sym, ◌∙◌, ℤ, pos, negsuc, c_int_max, min, none, some, List, [], ◌∷◌, ◌++◌,
  length, arith, append-nil, if_both, subst,
}
use btls.Io.{ok, err}
use btls.Bio.{Stream, returned, panicked}
use btls.Bio.Calls.{Prog, run, run-Ends}
use btls.Ssl.Boring.{Boring, IsBoring, Read}
use btls.Ssl.Stream.{
  SslStream, Outcome, value, error, unwound, make_error, positive, ssl_read, Tried, retries,
  reads_nothing, after_read, read_uninit,
}
use btls.Ssl.Stream.Laws.{Fails, make_error-Fails}

module _ {C S : Type 0} {g : Boring C} (l : IsBoring g) (st : Stream S) where
  -- A result of `SSL_read` into `room` bytes, after the plaintext `before`.
  abbrev pub Opens : List ℕ → ℕ → Outcome (List ℕ) × SslStream C S → Type 0
  Opens before room (value bytes, s) =
      (length bytes ≤ room) × (min 1 room ≤ length bytes) × (g.opened s.conn ≡ before ++ bytes)
  Opens before room (error e, s) = g.opened s.conn ≡ before
  Opens before room (unwound p, s) = g.opened s.conn ≡ before

  Fails-Opens :
      (before : List ℕ) (room : ℕ) (s : SslStream C S) (r : Outcome (List ℕ) × SslStream C S)
      → g.opened s.conn ≡ before
      → Fails l s r
      → Opens before room r
  Fails-Opens before room s (value n, s') e f = absurd f
  Fails-Opens before room s (error x, s') e f = f.opened_same ∙ e
  Fails-Opens before room s (unwound p, s') e f = f.opened_same ∙ e

  nothing : (before bytes : List ℕ) → length bytes ≡ 0 → before ++ bytes ≡ before
  nothing before [] e = append-nil before
  nothing before (x ∷ xs) e = absurd (omega arith)

  positive-Opens :
      (before bytes : List ℕ) (room : ℕ) (ret : ℤ) (s : SslStream C S)
      → Read before (min c_int_max room) ret bytes (g.opened s.conn)
      → Opens before room (positive g st ret bytes s)
  unfolding positive
  positive-Opens before bytes room (pos zero) s w =
      Fails-Opens before room s (make_error g st (pos zero) s) (w.2 ∙ nothing before bytes w.0)
        (make_error-Fails l (List ℕ) st (pos zero) s)
  positive-Opens before bytes room (pos (suc n)) s w =
      (omega (arith, w.0, w.1), omega (arith, w.0), w.2)
  positive-Opens before bytes room (negsuc n) s w =
      Fails-Opens before room s (make_error g st (negsuc n) s) w
        (make_error-Fails l (List ℕ) st (negsuc n) s)

  pub ssl_read-Opens :
      (room : ℕ) (s : SslStream C S) → Opens (g.opened s.conn) room (ssl_read g st room s)
  unfolding ssl_read
  ssl_read-Opens zero s = (omega arith, omega arith, sym (append-nil (g.opened s.conn)))
  ssl_read-Opens (suc room) s =
      positive-Opens (g.opened s.conn) (run st p s.bio).0.1 (suc room) (run st p s.bio).0.0 _
        (run-Ends st
          (λ r.
            Read (g.opened s.conn) (min c_int_max (suc room)) r.0 r.1 (g.opened r.2)
            × (g.sealed r.2 ≡ g.sealed s.conn))
          p s.bio (l.reads s.conn (min c_int_max (suc room)))).0
    where
      p : Prog (ℤ × List ℕ × C)
      p = g.ssl_read s.conn (min c_int_max (suc room))

  -- The same of `read_uninit`, which returns an `io::Result` after any retries.
  abbrev pub Got : List ℕ → ℕ → Tried g st (List ℕ) → Type 0
  Got before room none = Unit
  Got before room (some (returned (ok bytes), s)) =
      (length bytes ≤ room) × (g.opened s.conn ≡ before ++ bytes)
  Got before room (some (returned (err e), s)) = g.opened s.conn ≡ before
  Got before room (some (panicked p, s)) = g.opened s.conn ≡ before

  after_read-Got :
      (before : List ℕ) (room : ℕ) (again : Tried g st (List ℕ))
      (r : Outcome (List ℕ) × SslStream C S)
      → Opens before room r
      → (g.opened r.1.conn ≡ before → Got before room again)
      → Got before room (after_read g st again r)
  unfolding after_read
  after_read-Got before room again (value bytes, s) w ih = (w.0, w.2)
  after_read-Got before room again (error e, s) w ih =
      if_both (Got before room) (reads_nothing g st e) {x = some (returned (ok []), s)}
        (omega arith, w ∙ sym (append-nil before))
        (if_both (Got before room) (retries g st e) (ih w) w)
  after_read-Got before room again (unwound p, s) w ih = w

  -- For a BoringSSL that keeps its contract, if it returns within its fuel: what read_uninit
  -- returns is the next plaintext, no more than fits; with an error or a panic it takes none.
  pub read_uninit-Got :
      (fuel room : ℕ) (before : List ℕ) (s : SslStream C S)
      → g.opened s.conn ≡ before
      → Got before room (read_uninit g st fuel room s)
  unfolding read_uninit
  read_uninit-Got zero room before s e = tt
  read_uninit-Got (suc fuel) room before s e =
      after_read-Got before room (read_uninit g st fuel room r.1) r
        (subst (λ b. Opens b room r) e (ssl_read-Opens room s))
        λ same. read_uninit-Got fuel room before r.1 same
    where
      r : Outcome (List ℕ) × SslStream C S
      r = ssl_read g st room s
