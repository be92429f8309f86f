-- ===== src/Tokio/Write/Loop.antt =====
-- The loop of `ssl_write_records` in tokio-btls/src/lib.rs, the count that it keeps and its fuel.
use btls.Prelude.{
  ◌-◌, false, ◌&&◌, leb, saturating_add, ℕ, zero, suc, ◌+◌, ◌≤◌, ◌<◌, ◌≡◌, refl, sym, ap, ◌∙◌, min,
  Bool, Option, none, some, List, [], ◌++◌, arith, length, take, drop, if_both, drop-drop,
  length-drop, take_add, take-take, ltb, if◌then◌else◌, append_assoc,
}
use btls.Io.{ok, err}
use btls.Bio.{Caught, returned, panicked}
use btls.Ssl.Boring.{Boring, IsBoring}
use btls.Ssl.Stream
use btls.Ssl.Stream.{SslStream}
use btls.Ssl.Stream.Sealing.{Written, write-Written}
use btls.Tokio.Host.{Host}
use btls.Tokio.Packer.{Packer, next_record, advance}
use btls.Tokio.Packer.Rest.{remaining, IsValid, remaining-advance}
use btls.Tokio.Packer.Records.{IsRecord}
use btls.Tokio.Packer.Next.{Next, next_record-Next}
use btls.Tokio.Limits.{max_record}
use btls.Tokio.WriteBuffer
use btls.Tokio.Wrapper.{stream}
use btls.Tokio.Write.{
  Tls, Ended, ended, blown, after_record, round, record_loop, set_through, wrapper,
}

module _ {C S : Type 0} {g : Boring C} (l : IsBoring g) (h : Host S) (patience : ℕ) where
  -- `SslStream::write` comes to an end within `patience` retries, whatever it writes.
  abbrev pub Ends : Type 0
  Ends = (r : List ℕ) (s : Tls C S) → ¬ Stream.write g (stream h) patience r s ≡ none

  -- `n` bytes of `all` were sealed, after the plaintext `before`.
  abbrev pub Sent : List ℕ → List ℕ → ℕ → Tls C S → Type 0
  Sent before all n s = (n ≤ length all) × (g.sealed s.conn ≡ before ++ take n all)

  -- How the loop ends: with no error only after a byte, if there was one.
  abbrev pub Stops : List ℕ → List ℕ → Option (Ended (Tls C S)) → Type 0
  Stops before all none = ⊥
  Stops before all (some (ended n none s)) = Sent before all n s × (min 1 (length all) ≤ n)
  Stops before all (some (ended n (some e) s)) = Sent before all n s
  Stops before all (some (blown x s)) = (k : ℕ) × Sent before all k s

  -- What a next round needs and gives.
  abbrev Again :
      List ℕ → List ℕ → ℕ → (Packer → ℕ → Bool → Tls C S → Option (Ended (Tls C S))) → Type 0
  Again before all fuel again =
      (q : Packer) (n : ℕ) (through : Bool) (s : Tls C S)
      → IsValid q
      → remaining q ≡ drop n all
      → Sent before all n s
      → length (remaining q) < fuel
      → Stops before all (again q n through s)

  Sent-add :
      (before all r : List ℕ) (w n : ℕ) (s : Tls C S)
      → w ≤ length all
      → length r ≤ length (drop w all)
      → n ≤ length r
      → r ≡ take (length r) (drop w all)
      → g.sealed s.conn ≡ (before ++ take w all) ++ take n r
      → Sent before all (w + n) s
  Sent-add before all r w n s hw hr hn e f = (
    omega (arith, length-drop w all),
    f
        ∙ ap (λ x. (before ++ take w all) ++ take n x) e
        ∙ ap (λ x. (before ++ take w all) ++ x) (take-take n (length r) (drop w all) hn)
        ∙ append_assoc before (take w all) (take n (drop w all))
        ∙ ap (λ x. before ++ x) (take_add w n all),
  )

  chosen : ℕ → ℕ → Packer → Packer
  chosen n len p = if ltb n len then record p { limit = n } else p

  chosen_lem :
      (n len : ℕ) (p : Packer)
      → 1 ≤ n
      → IsValid p
      → IsValid (chosen n len p) × (remaining (chosen n len p) ≡ remaining p)
  unfolding chosen
  chosen_lem n len p lo v =
      if_both (λ x. IsValid x × (remaining x ≡ remaining p)) (ltb n len)
        (record { within = v.within; limited = lo }, refl) (v, refl)

  after_record-Stops :
      (before all r : List ℕ) (fuel total w lim : ℕ) (p : Packer) (through : Bool)
      → (again : Packer → ℕ → Bool → Tls C S → Option (Ended (Tls C S)))
      → Again before all fuel again
      → IsValid p
      → remaining p ≡ drop w all
      → w ≤ length all
      → length (remaining p) ≤ fuel
      → IsRecord lim (remaining p) r
      → (t : Option (Caught ℕ × Tls C S)) → Written l (stream h) (before ++ take w all) r t
      → ¬ t ≡ none
      → Stops before all (after_record g h again total p w (length r) through t)
  unfolding after_record chosen
  after_record-Stops before all r fuel total w lim p through again ih v e hw hf c none i k = k refl
  after_record-Stops before all r fuel total w lim p through again ih v e hw hf c
        (some (panicked x, s)) i k =
      (w, (hw, i))
  after_record-Stops before all r fuel total w lim p through again ih v e hw hf c
        (some (returned (err x), s)) i k =
      (hw, i)
  after_record-Stops before all r fuel total w lim p through again ih v e hw hf c
        (some (returned (ok n), s)) i k =
      if_both (Stops before all)
        (WriteBuffer.is_full (wrapper s).write_buf && ltb max_record (total - (w + n)))
        {x = some (ended (w + n) none s)} enough
        (ih q (w + n) (if ltb n (length r) then false else through) s next.1 gone sent shorter)
    where
      q : Packer
      q = advance (chosen n (length r) p) n

      picked : IsValid (chosen n (length r) p) × (remaining (chosen n (length r) p) ≡ remaining p)
      picked = chosen_lem n (length r) p (omega (arith, i.1, c.filled)) v

      next : (remaining q ≡ drop n (remaining (chosen n (length r) p))) × IsValid q
      next =
          remaining-advance (chosen n (length r) p) n picked.0
            (omega (arith, ap length picked.1, i.0, c.inside))

      gone : remaining q ≡ drop (w + n) all
      gone = next.0 ∙ ap (drop n) (picked.1 ∙ e) ∙ drop-drop n w all

      sent : Sent before all (w + n) s
      sent =
          Sent-add before all r w n s hw (omega (arith, ap length e, c.inside)) i.0
            (c.prefix ∙ ap (take (length r)) e) i.2

      enough : Sent before all (w + n) s × (min 1 (length all) ≤ w + n)
      enough = (sent, omega (arith, i.1, c.filled))

      shorter : length (remaining q) < fuel
      shorter = omega (
        arith,
        ap length next.0,
        ap length picked.1,
        length-drop n (remaining (chosen n (length r) p)),
        i.0,
        i.1,
        c.filled,
        c.inside,
      )

  -- What `next_record` returned, cut from `rest`.
  Cut : ℕ → List ℕ → Option (List ℕ) × Packer → Type 0
  Cut lim rest (none, q) = rest ≡ []
  Cut lim rest (some r, q) = IsRecord lim rest r × IsValid q × (remaining q ≡ rest)

  cut : (p : Packer) (t : Option (List ℕ) × Packer) → Next p t → Cut p.limit (remaining p) t
  unfolding Cut
  cut p (none, q) c = c.0
  cut p (some r, q) c = (c.0, c.2, c.1)

  round-Stops :
      (before all : List ℕ) (fuel total w lim : ℕ) (through : Bool) (s : Tls C S)
      → (again : Packer → ℕ → Bool → Tls C S → Option (Ended (Tls C S)))
      → Again before all fuel again
      → Ends
      → (rest : List ℕ) → rest ≡ drop w all
      → Sent before all w s
      → length rest ≤ fuel
      → (t : Option (List ℕ) × Packer) → Cut lim rest t
      → Stops before all (round g h again patience total w through s t)
  unfolding round Cut
  round-Stops before all fuel total w lim through s again ih term rest e sent hf (none, q) c =
      (sent, omega (arith, ap length (sym e ∙ c), length-drop w all))
  round-Stops before all fuel total w lim through s again ih term rest e sent hf (some r, q) c =
      after_record-Stops before all r fuel total w lim q through again ih c.1 (c.2 ∙ e) sent.0
        (omega (arith, ap length c.2)) (rw (c.2) (c.0)) (Stream.write g (stream h) patience r s')
        (write-Written l (stream h) patience (before ++ take w all) r s' sent.1) (term r s')
    where
      s' : Tls C S
      s' = set_through (through && leb total (saturating_add w (length r))) s

  -- For a BoringSSL that keeps its contract, when SslStream::write comes to an end within its
  -- retries, and from a valid packer that has the rest of the plaintext: with a round more than
  -- there are bytes left, the loop of ssl_write_records comes to an end; what it counts as written
  -- was sealed and nothing else was.
  pub record_loop-Stops :
      (before all : List ℕ) (fuel total w : ℕ) (p : Packer) (through : Bool) (s : Tls C S)
      → Ends
      → IsValid p
      → remaining p ≡ drop w all
      → Sent before all w s
      → length (remaining p) < fuel
      → Stops before all (record_loop g h patience total fuel p w through s)
  unfolding record_loop
  record_loop-Stops before all zero total w p through s term v e sent hf = absurd (omega arith)
  record_loop-Stops before all (suc fuel) total w p through s term v e sent hf =
      round-Stops before all fuel total w p.limit through s (record_loop g h patience total fuel)
        (λ q n b s' v' e' sent' hf'.
          record_loop-Stops before all fuel total n q b s' term v' e' sent' hf')
        term (remaining p) e sent (omega (arith, hf)) (next_record p)
        (cut p (next_record p) (next_record-Next p v))
