-- ===== src/Tokio/Poll/Closing.antt =====
-- `poll_flush` and `poll_shutdown` of tokio-btls/src/lib.rs, and the ciphertext that waits.
use btls.Prelude.{
  ◌≡◌, refl, sym, ap, ◌∙◌, true, ◌||◌, [], ◌++◌, append-nil, if_split, if_both, Bool,
}
use btls.Io.{IoResult, ok, err, Poll, ready, pending, is_would_block, kind}
use btls.Ssl.Boring.{Boring, IsBoring}
use btls.Ssl.Error.{is_zero_return}
use btls.Ssl.Stream
use btls.Ssl.Stream.{Outcome, value, error, unwound, ShutdownResult}
use btls.Ssl.Stream.Growth.{Grew, Grew-refl, Grew-trans, shutdown-Grew}
use btls.Tokio.Host.{Host, IsHost}
use btls.Tokio.WriteBuffer
use btls.Tokio.WriteBuffer.{WriteBuffer, Drained}
use btls.Tokio.Wrapper.{flush, stream}
use btls.Tokio.Wrapper.Log.{Ready, ciphertext, stream-logs, FlushDone, flush-FlushDone, flush-log}
use btls.Tokio.Write.{Tls, wrapper, put}
use btls.Tokio.Poll.{
  Polled, polled, burst, cvt, poll_flush, with_shutdown_sent, close, after_shutdown,
  closed_by_alert, waits, poll_shutdown,
}

module _ {C S : Type 0} {g : Boring C} (l : IsBoring g) {h : Host S} (lh : IsHost h) where
  abbrev sent_flag : Tls C S → Bool
  sent_flag s = (wrapper s).shutdown_sent

  -- A result of `poll_flush`: the ciphertext is as it was, and with `Ok` none of it waits.
  abbrev pub Flush : Tls C S → Poll (Unit {0}) × Tls C S → Type 0
  Flush s (ready (ok _), s') =
      Grew l (stream-logs lh) s s'
      × (sent_flag s' ≡ sent_flag s)
      × (WriteBuffer.buffered (wrapper s').write_buf ≡ [])
  Flush s (ready (err e), s') = Grew l (stream-logs lh) s s' × (sent_flag s' ≡ sent_flag s)
  Flush s (pending, s') = Grew l (stream-logs lh) s s' × (sent_flag s' ≡ sent_flag s)

  cvt-Flush :
      (s s' : Tls C S) (r : IoResult (Unit {0}))
      → Grew l (stream-logs lh) s s'
      → FlushDone lh (wrapper s) (r, wrapper s')
      → Flush s (cvt r, s')
  unfolding cvt
  cvt-Flush s s' (ok _) w d = (w, d.1, d.0)
  cvt-Flush s s' (err e) w d =
      if_both (λ p. Flush s (p, s')) (is_would_block (kind e)) (w, d) (w, d)

  pub poll_flush-Flush : (s : Tls C S) → Ready lh (wrapper s) → Flush s (poll_flush g h s)
  unfolding poll_flush
  poll_flush-Flush s v =
      let k = flush-log lh (wrapper s) v in
      cvt-Flush s (put s (flush h (wrapper s)).1) (flush h (wrapper s)).0
        (record {
          keeps = k.0;
          out = [];
          grew = k.1 ∙ sym (append-nil (ciphertext lh (wrapper s)));
        })
        (flush-FlushDone lh (wrapper s) v)

  -- A result of `poll_shutdown`: the ciphertext only gained bytes, and with `Ok` none of it waits and
  -- `SSL_shutdown` is done.
  abbrev pub Closed : Tls C S → Polled (Tls C S) → Type 0
  Closed s (polled (ready (ok _)) got s') =
      Grew l (stream-logs lh) s s'
      × (sent_flag s' ≡ true)
      × (WriteBuffer.buffered (wrapper s').write_buf ≡ [])
  Closed s (polled (ready (err e)) got s') = Grew l (stream-logs lh) s s'
  Closed s (polled pending got s') = Grew l (stream-logs lh) s s'
  Closed s (burst x got s') = Grew l (stream-logs lh) s s'

  polled-Closed :
      (s s' : Tls C S) (r : Poll (Unit {0}))
      → Grew l (stream-logs lh) s s'
      → sent_flag s' ≡ true
      → WriteBuffer.buffered (wrapper s').write_buf ≡ []
      → Closed s (polled r [] s')
  polled-Closed s s' (ready (ok _)) w f e = (w, f, e)
  polled-Closed s s' (ready (err x)) w f e = w
  polled-Closed s s' pending w f e = w

  transport-Grew :
      (s : Tls C S) (t : S)
      → Ready lh (wrapper s)
      → h.wire t ≡ h.wire (wrapper s).transport
      → Grew l (stream-logs lh) s (put s (record (wrapper s) { transport = t }))
  transport-Grew s t v e = record {
    keeps = v;
    out = [];
    grew =
        ap (λ x. x ++ WriteBuffer.buffered (wrapper s).write_buf) e
        ∙ sym (append-nil (ciphertext lh (wrapper s)));
  }

  close-Closed :
      (s t : Tls C S) (p : Poll (Unit {0}) × Tls C S)
      → Grew l (stream-logs lh) s t
      → sent_flag t ≡ true
      → Flush t p
      → Closed s (close g h p)
  unfolding close
  close-Closed s t (ready (ok _), u) a f (b, same, e) =
      polled-Closed s _ (h.poll_shutdown (wrapper u).transport).0
        (Grew-trans l (stream-logs lh) s u _ (Grew-trans l (stream-logs lh) s t u a b) (
          transport-Grew u (h.poll_shutdown (wrapper u).transport).1 b.keeps
            (lh.shuts (wrapper u).transport)))
        (same ∙ f) e
  close-Closed s t (ready (err x), u) a f (b, same) = Grew-trans l (stream-logs lh) s t u a b
  close-Closed s t (pending, u) a f (b, same) = Grew-trans l (stream-logs lh) s t u a b

  flag-Grew :
      (s t : Tls C S)
      → Grew l (stream-logs lh) s t
      → Grew l (stream-logs lh) s (with_shutdown_sent g h t)
  flag-Grew s t a = record { keeps = a.keeps; out = a.out; grew = a.grew }

  after_shutdown-Closed :
      (s : Tls C S) (r : Outcome ShutdownResult × Tls C S)
      → Grew l (stream-logs lh) s r.1
      → Closed s (after_shutdown g h r)
  unfolding after_shutdown
  after_shutdown-Closed s (value v, t) a =
      let u = with_shutdown_sent g h t in
      close-Closed s u (poll_flush g h u) (flag-Grew s t a) refl (poll_flush-Flush u a.keeps)
  after_shutdown-Closed s (unwound p, t) a = a
  after_shutdown-Closed s (error e, t) a =
      if_both (Closed s) (is_zero_return e.code || closed_by_alert e)
        (let u = with_shutdown_sent g h t in
          close-Closed s u (poll_flush g h u) (flag-Grew s t a) refl (poll_flush-Flush u a.keeps))
        (if_both (Closed s) (waits e.code) a a)

  -- For a BoringSSL and a transport that keep their contracts, and a valid write buffer:
  -- poll_shutdown loses no ciphertext, so that what is on the wire and what waits only gains bytes
  -- at the end. When it returns Ok, none of it waits and shutdown_sent is set.
  pub poll_shutdown-Closed : (s : Tls C S) → Ready lh (wrapper s) → Closed s (poll_shutdown g h s)
  unfolding poll_shutdown
  poll_shutdown-Closed s v =
      if_split (Closed s) (wrapper s).shutdown_sent
        (λ e.
          close-Closed s s (poll_flush g h s) (Grew-refl l (stream-logs lh) s v) e
            (poll_flush-Flush s v))
        (λ _.
          after_shutdown-Closed s (Stream.shutdown g (stream h) s)
            (shutdown-Grew l (stream-logs lh) s v))
