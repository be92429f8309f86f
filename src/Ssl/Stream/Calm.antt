-- ===== src/Ssl/Stream/Calm.antt =====
-- `SslStream` of btls/src/ssl/mod.rs on a connection that never asks for a read.
use btls.Prelude.{
  if_split, ℕ, zero, suc, ◌≡◌, ℤ, pos, negsuc, false, Option, none, some, List, [], ◌∷◌, min,
  c_int_max, length, take,
}
use btls.Io.{ErrorCode}
use btls.Bio.{Stream, Bio, Retry, take_panic}
use btls.Bio.Calls.{run}
use btls.Ssl.Error.{Error, io_error, is_want_read}
use btls.Ssl.Boring.{Boring}
use btls.Ssl.Stream.{
  SslStream, Outcome, value, error, unwound, after_check, make_error, positive, to_ℕ, call,
  write_some, ssl_write, Tried, after_write, write, ssl_read, after_read, read_uninit,
  reads_nothing,
}

module _ {C S : Type 0} (g : Boring C) (st : Stream S)
    (calm : (c : C) (f : Retry) (r : ℤ) → is_want_read (g.ssl_get_error c f r) ≡ false) where
  abbrev Calm : {A : Type 0} → Outcome A × SslStream C S → Type 0
  Calm (value a, s) = Unit
  Calm (error e, s) = is_want_read e.code ≡ false
  Calm (unwound p, s) = Unit

  after_check-Calm :
      (A : Type 0) (ret : ℤ) (p : Option ℕ × Bio S) (s : SslStream C S)
      → Calm {A = A} (after_check g st ret p s)
  unfolding after_check
  after_check-Calm A ret (some p, b) s = tt
  after_check-Calm A ret (none, b) s = calm s.conn b.retry ret

  positive-Calm :
      {A : Type 0} → (ret : ℤ) (a : A) (s : SslStream C S) → Calm (positive g st ret a s)
  unfolding positive make_error
  positive-Calm {A} (pos zero) a s = after_check-Calm A (pos zero) (take_panic s.bio) s
  positive-Calm (pos (suc n)) a s = tt
  positive-Calm {A} (negsuc n) a s = after_check-Calm A (negsuc n) (take_panic s.bio) s

  ssl_write-Calm : (buf : List ℕ) (s : SslStream C S) → Calm (ssl_write g st buf s)
  unfolding ssl_write write_some
  ssl_write-Calm [] s = tt
  ssl_write-Calm (x ∷ xs) s =
      let r = call g st (g.ssl_write s.conn (take (min c_int_max (length (x ∷ xs))) (x ∷ xs))) s in
      positive-Calm r.0 (to_ℕ g st r.0) r.1

  after_write-some :
      (again : Tried g st ℕ) (r : Outcome ℕ × SslStream C S)
      → Calm r
      → ¬ after_write g st again r ≡ none
  unfolding after_write
  after_write-some again (value n, s) c e = cc
  after_write-some again (error x, s) c e = f (rw c at e)
    where
      f :
          ¬ ◌≡◌ {A = Tried g st ℕ}
            (some (btls.Bio.returned (btls.Io.err (btls.Ssl.Error.into_io_error x)), s))
            none
      f h = cc
  after_write-some again (unwound p, s) c e = cc

  -- With a connection whose errors never ask for a read, `write` comes to an end in its first round.
  pub write-some : (buf : List ℕ) (s : SslStream C S) → ¬ write g st 1 buf s ≡ none
  unfolding write
  write-some buf s = after_write-some none (ssl_write g st buf s) (ssl_write-Calm buf s)

  ssl_read-Calm : (room : ℕ) (s : SslStream C S) → Calm (ssl_read g st room s)
  unfolding ssl_read
  ssl_read-Calm zero s = tt
  ssl_read-Calm (suc room) s =
      let r = run st (g.ssl_read s.conn (min c_int_max (suc room))) s.bio in
      positive-Calm r.0.0 r.0.1 (record { conn = r.0.2; bio = r.1 })

  after_read-some :
      (again : Tried g st (List ℕ)) (r : Outcome (List ℕ) × SslStream C S)
      → Calm r
      → ¬ after_read g st again r ≡ none
  unfolding after_read
  after_read-some again (value n, s) c e = cc
  after_read-some again (error x, s) c e =
      (if_split (λ t. ¬ t ≡ none) (reads_nothing g st x) (λ _ f. cc) λ _. rw c λ f. cc) e
  after_read-some again (unwound p, s) c e = cc

  -- With a connection whose errors never ask for a read, `read_uninit` comes to an end in its first
  -- round.
  pub read_uninit-some : (room : ℕ) (s : SslStream C S) → ¬ read_uninit g st 1 room s ≡ none
  unfolding read_uninit
  read_uninit-some room s = after_read-some none (ssl_read g st room s) (ssl_read-Calm room s)
