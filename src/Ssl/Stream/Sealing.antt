-- ===== src/Ssl/Stream/Sealing.antt =====
-- The plaintext that `ssl_write` and `write` of btls/src/ssl/mod.rs report and seal.
use btls.Prelude.{
  ℕ, zero, suc, ◌≤◌, ◌≡◌, sym, ap, ◌∙◌, ℤ, pos, negsuc, c_int_max, min, none, some, List, [], ◌∷◌,
  ◌++◌, take, length, arith, append-nil, take-take, length-take, if_split, subst,
}
use btls.Io.{ok, err}
use btls.Bio.{Stream, Caught, returned, panicked}
use btls.Bio.Calls.{run, run-Ends}
use btls.Ssl.Boring.{Boring, IsBoring, Wrote}
use btls.Ssl.Stream.{
  SslStream, Outcome, value, error, unwound, make_error, positive, to_ℕ, call, write_some,
  ssl_write, Tried, retries, after_write, write,
}
use btls.Ssl.Stream.Laws.{Fails, make_error-Fails}

module _ {C S : Type 0} {g : Boring C} (l : IsBoring g) (st : Stream S) where
  -- The plaintext sealed so far, in order.
  abbrev pub plain : SslStream C S → List ℕ
  plain s = g.sealed s.conn

  -- A result of `SSL_write` on `buf`, after the plaintext `before`.
  abbrev pub Reports : List ℕ → List ℕ → Outcome ℕ × SslStream C S → Type 0
  Reports before buf (value n, s') =
      (n ≤ length buf) × (min 1 (length buf) ≤ n) × (plain s' ≡ before ++ take n buf)
  Reports before buf (error e, s') = plain s' ≡ before
  Reports before buf (unwound p, s') = plain s' ≡ before

  Fails-Reports :
      (before buf : List ℕ) (s : SslStream C S) (r : Outcome ℕ × SslStream C S)
      → plain s ≡ before
      → Fails l s r
      → Reports before buf r
  Fails-Reports before buf s (value n, s') e f = absurd f
  Fails-Reports before buf s (error x, s') e f = f.sealed_same ∙ e
  Fails-Reports before buf s (unwound p, s') e f = f.sealed_same ∙ e

  positive-Reports :
      (before buf : List ℕ) (k : ℕ) (ret : ℤ) (s : SslStream C S)
      → Wrote before (take k buf) ret (plain s)
      → Reports before buf (positive g st ret (to_ℕ g st ret) s)
  unfolding positive
  positive-Reports before buf k (pos zero) s w =
      Fails-Reports before buf s (make_error g st (pos zero) s) w
        (make_error-Fails l ℕ st (pos zero) s)
  positive-Reports before buf k (pos (suc n)) s w = (
    omega (arith, length-take k buf, w.0),
    omega arith,
    w.1 ∙ ap (λ x. before ++ x) (take-take (suc n) k buf (omega (arith, length-take k buf, w.0))),
  )
  positive-Reports before buf k (negsuc n) s w =
      Fails-Reports before buf s (make_error g st (negsuc n) s) w
        (make_error-Fails l ℕ st (negsuc n) s)

  write_some-Reports :
      (buf : List ℕ) (s : SslStream C S) → Reports (plain s) buf (write_some g st buf s)
  unfolding write_some
  write_some-Reports buf s = positive-Reports (plain s) buf k (call g st p s).0 (call g st p s).1 (
      run-Ends st (λ r. Wrote (plain s) (take k buf) r.0 (g.sealed r.1)) p s.bio
        (l.writes s.conn (take k buf)))
    where
      k : ℕ
      k = min c_int_max (length buf)

      p : btls.Bio.Calls.Prog (ℤ × C)
      p = g.ssl_write s.conn (take k buf)

  -- `ssl_write` returns the length of a prefix of the slice, not empty unless the slice is, with
  -- exactly that prefix sealed; or it fails with nothing sealed.
  pub ssl_write-Reports :
      (buf : List ℕ) (s : SslStream C S) → Reports (plain s) buf (ssl_write g st buf s)
  unfolding ssl_write
  ssl_write-Reports [] s = (omega arith, omega arith, sym (append-nil (plain s)))
  ssl_write-Reports (x ∷ xs) s = write_some-Reports (x ∷ xs) s

  -- The same of `write`, which returns an `io::Result` after any retries.
  abbrev pub Written : List ℕ → List ℕ → Tried g st ℕ → Type 0
  Written before buf none = Unit
  Written before buf (some (returned (ok n), s')) =
      (n ≤ length buf) × (min 1 (length buf) ≤ n) × (plain s' ≡ before ++ take n buf)
  Written before buf (some (returned (err e), s')) = plain s' ≡ before
  Written before buf (some (panicked p, s')) = plain s' ≡ before

  after_write-Written :
      (before buf : List ℕ) (again : Tried g st ℕ) (r : Outcome ℕ × SslStream C S)
      → Reports before buf r
      → (plain r.1 ≡ before → Written before buf again)
      → Written before buf (after_write g st again r)
  unfolding after_write
  after_write-Written before buf again (value n, s') w ih = w
  after_write-Written before buf again (error e, s') w ih =
      if_split (Written before buf) (retries g st e) (λ _. ih w) (λ _. w)
  after_write-Written before buf again (unwound p, s') w ih = w

  -- For a BoringSSL that keeps its contract, if it returns within its fuel: SslStream::write
  -- returns Ok of the length of a prefix of the slice, not empty unless the slice is, with exactly
  -- that prefix sealed; or it returns an error, or panics, with nothing sealed.
  pub write-Written :
      (fuel : ℕ) (before buf : List ℕ) (s : SslStream C S)
      → plain s ≡ before
      → Written before buf (write g st fuel buf s)
  unfolding write
  write-Written zero before buf s e = tt
  write-Written (suc fuel) before buf s e =
      after_write-Written before buf (write g st fuel buf r.1) r
        (subst (λ b. Reports b buf r) e (ssl_write-Reports buf s))
        λ same. write-Written fuel before buf r.1 same
    where
      r : Outcome ℕ × SslStream C S
      r = ssl_write g st buf s
