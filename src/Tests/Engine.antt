-- ===== src/Tests/Engine.antt =====
-- A transport that takes a number of bytes before it is full, and a connection whose records are the
-- plaintext itself. They satisfy what the theorems ask of the code outside the repository.
use btls.Prelude.{
  ℕ, zero, suc, ◌+◌, ◌-◌, ◌≡◌, refl, sym, ap, ℤ, pos, min, max, true, false, List, [], ◌∷◌, ◌++◌,
  arith, length, take, drop, flatten, length-take, take-length,
}
use btls.Io.{ssl, Poll, ready, pending, ok}
use btls.Bio.{Retry}
use btls.Bio.Calls.{Prog, done, bio_write, bio_read, Ends}
use btls.Ssl.Boring.{Boring, IsBoring, SealResult, success, declined, Wrote, Sealed}
use btls.Ssl.Error.{is_want_read}
use btls.Tokio.Host.{Host, IsHost, Accepts}

-- `room`: the bytes that it still takes.
pub record Pipe : Type 0 where
  pub room : ℕ
  pub out : List ℕ
  pub inbox : List ℕ
  pub handed : List ℕ

abbrev take_some : ℕ → List ℕ → Pipe → Poll ℕ × Pipe
take_some zero b s = (pending, s)
take_some (suc room) b s =
    let n = min (suc room) (length b) in
    (ready (ok n), record s { room = suc room - n; out = s.out ++ take n b })

abbrev pub pipe : Host Pipe
pipe = record {
  poll_read = λ room s. (
    ready (ok (take room s.inbox)),
    record s { inbox = drop room s.inbox; handed = s.handed ++ take room s.inbox },
  );
  poll_write = λ b s. take_some s.room b s;
  poll_write_vectored = λ bs s. take_some s.room (flatten bs) s;
  is_write_vectored = λ s. true;
  poll_flush = λ s. (ready (ok tt), s);
  poll_shutdown = λ s. (ready (ok tt), s);
  wire = λ s. s.out;
  got = λ s. s.handed;
  reserve = λ capacity len extra. max capacity (len + extra);
}

take_some-Accepts :
    (room : ℕ) (b : List ℕ) (s : Pipe)
    → Accepts s.out b (take_some room b s).0 (take_some room b s).1.out
take_some-Accepts zero b s = refl
take_some-Accepts (suc room) b s = (omega arith, refl)

pub pipe-IsHost : IsHost pipe
pipe-IsHost = record {
  writes = λ b s. take_some-Accepts s.room b s;
  writes_vectored = λ bs s. take_some-Accepts s.room (flatten bs) s;
  reads = λ room s. ((omega (arith, length-take room s.inbox), refl), refl);
  flushes = λ s. refl;
  shuts = λ s. refl;
  reserves = λ capacity len extra. omega arith;
  keeps = λ capacity len extra. omega arith;
}

-- The connection is the plaintext that it has sealed, and that it has handed out.
abbrev pub App : Type 0
App = List ℕ × List ℕ

abbrev send : App → List ℕ → Prog (ℤ × App)
send c [] = done (pos 0, c)
send c (x ∷ xs) = bio_write (x ∷ xs) λ r f. done (pos (suc (length xs)), (c.0 ++ (x ∷ xs), c.1))

abbrev seal_some : App → List ℕ → ℕ → ℕ → SealResult × App
seal_some c plain max_in zero = (declined, c)
seal_some c plain max_in (suc max_out) =
    let n = min (min max_in (suc max_out)) (length plain) in
    (success n (take n plain), (c.0 ++ take n plain, c.1))

abbrev pub engine : Boring App
engine = record {
  ssl_read = λ c room.
      bio_read room
        (λ r f. done (pos (length (take room r.1)), take room r.1, (c.0, c.1 ++ take room r.1)));
  ssl_write = send;
  ssl_shutdown = λ c. bio_write (21 ∷ []) (λ r f. done (pos 0, c));
  ssl_connect = λ c. done (pos 1, c);
  ssl_accept = λ c. done (pos 1, c);
  ssl_do_handshake = λ c. done (pos 1, c);
  ssl_get_error = λ c f r. ssl;
  err_get = λ c. ([], c);
  ssl_seal_app_data_limits =
      λ c. record { ret = 1; max_fragment = 4; record_overhead = 0; pending_len = 0 };
  ssl_seal_app_data = λ c bufs max_in max_out. seal_some c (flatten bufs) max_in max_out;
  sealed = λ c. c.0;
  opened = λ c. c.1;
}

send-Ends : (c : App) (b : List ℕ) → Ends (λ r. Wrote c.0 b r.0 r.1.0) (send c b)
send-Ends c [] = refl
send-Ends c (x ∷ xs) = λ r f. (omega arith, ap (λ y. c.0 ++ y) (sym (take-length (x ∷ xs))))

seal_some-Sealed :
    (c : App) (plain : List ℕ) (max_in max_out : ℕ)
    → Sealed c.0 plain max_in max_out
        (seal_some c plain max_in max_out).0
        (seal_some c plain max_in max_out).1.0
seal_some-Sealed c plain max_in zero = refl
seal_some-Sealed c plain max_in (suc max_out) = (
  omega arith,
  omega arith,
  omega (arith, length-take (min (min max_in (suc max_out)) (length plain)) plain),
  omega arith,
  refl,
)

pub engine-IsBoring : IsBoring engine
engine-IsBoring = record {
  writes = send-Ends;
  reads = λ c room r f. ((refl, omega (arith, length-take room r.1), refl), refl);
  seals = λ c bufs max_in max_out. seal_some-Sealed c (flatten bufs) max_in max_out;
  shuts = λ c r f. refl;
  pops = λ c. (refl, refl);
}

pub engine-calm : (c : App) (f : Retry) (r : ℤ) → is_want_read (engine.ssl_get_error c f r) ≡ false
engine-calm c f r = refl
