-- ===== src/Ssl/Callbacks/Compression/Filled.antt =====
-- BoringSSL is never handed a buffer with bytes that the decompressor did not write
-- (btls/src/ssl/callbacks.rs).
use btls.Prelude.{
  ℕ, ◌+◌, ◌-◌, ◌≤◌, min, ◌≡◌, ◌≢◌, refl, sym, ap, ◌∙◌, subst, ◌⊎◌, inl, inr, Bool, true, false,
  Option, none, some, List, [], ◌++◌, length, take, drop, ◌==◌, arith, append-nil, append_assoc,
  take-append_left, take-append_right, length-append, length-take, length-drop, take_all,
  Bool-cases, ==→eq,
}
use btls.Io.{ok}
use btls.Ssl.Async.{returned}
use btls.Ssl.Callbacks.Compression.{
  Program, done, write, CryptoBufferBuilder, cursor_write, decompress, Decompressed, build,
  finish_decompress, with_buffer, raw_ssl_cert_decompress,
}

-- A program run against a sink with some room: whether it ends well, and the bytes that went in.
unfoldable pub sink : ℕ → Program → Bool × List ℕ
sink room (done success) = (success, [])
sink room (write buf k) =
    let n = min (length buf) room in
    let rest = sink (room - n) (k (ok n)) in (rest.0, take n buf ++ rest.1)

-- What the cursor holds after a program, against what the sink took.
pub record Holds (before : CryptoBufferBuilder) (taken : Bool × List ℕ)
    (after : Bool × CryptoBufferBuilder) : Type 0 where
  pub verdict : after.0 ≡ taken.0
  pub size : length after.1.buffer ≡ length before.buffer
  pub moved : after.1.position ≡ before.position + length taken.1
  pub bytes : take after.1.position after.1.buffer ≡ take before.position before.buffer ++ taken.1
  pub inside : after.1.position ≤ length before.buffer

write_size :
    (p n : ℕ) (buf bytes : List ℕ)
    → p ≤ length bytes
    → n ≡ min (length buf) (length bytes - p)
    → length (take p bytes ++ (take n buf ++ drop (p + n) bytes)) ≡ length bytes
write_size p n buf bytes h e = omega (
  arith,
  length-append (take p bytes) (take n buf ++ drop (p + n) bytes),
  length-append (take n buf) (drop (p + n) bytes),
  length-take p bytes,
  length-take n buf,
  length-drop (p + n) bytes,
)

write_bytes :
    (p n : ℕ) (buf bytes : List ℕ)
    → p ≤ length bytes
    → n ≡ min (length buf) (length bytes - p)
    → take (p + n) (take p bytes ++ (take n buf ++ drop (p + n) bytes)) ≡ take p bytes ++ take n buf
write_bytes p n buf bytes h e =
    ap (λ j. take j (take p bytes ++ (take n buf ++ drop (p + n) bytes))) {x = p + n}
      {y = length (take p bytes) + n} (omega (arith, length-take p bytes))
    ∙ take-append_right n (take p bytes) (take n buf ++ drop (p + n) bytes)
    ∙ ap (◌++◌ (take p bytes)) (
        take-append_left n (take n buf) (drop (p + n) bytes) (omega (arith, length-take n buf))
        ∙ take_all n (take n buf) (omega (arith, length-take n buf)))

then-Holds :
    (c c' : CryptoBufferBuilder) (buf : List ℕ) (n : ℕ) (t : Bool × List ℕ)
    → (r : Bool × CryptoBufferBuilder) → length c'.buffer ≡ length c.buffer
    → c'.position ≡ c.position + n
    → take c'.position c'.buffer ≡ take c.position c.buffer ++ take n buf
    → n ≤ length buf
    → Holds c' t r
    → Holds c (t.0, take n buf ++ t.1) r
then-Holds c c' buf n t r size moved bytes fits h = record {
  verdict = h.verdict;
  size = h.size ∙ size;
  moved = omega (arith, h.moved, length-append (take n buf) t.1, length-take n buf);
  bytes =
      h.bytes ∙ ap (λ y. y ++ t.1) bytes ∙ append_assoc (take c.position c.buffer) (take n buf) t.1;
  inside = omega (arith, h.inside);
}

decompress-Holds :
    (f : Program) (c : CryptoBufferBuilder)
    → c.position ≤ length c.buffer
    → Holds c (sink (length c.buffer - c.position) f) (decompress f c)
unfolding sink decompress cursor_write
decompress-Holds (done success) c h = record {
  verdict = refl;
  size = refl;
  moved = omega arith;
  bytes = sym (append-nil (take c.position c.buffer));
  inside = h;
}
decompress-Holds (write buf k) c h =
    let n = min (length buf) (length c.buffer - c.position) in
    let c' : CryptoBufferBuilder = record {
      buffer = take c.position c.buffer ++ (take n buf ++ drop (c.position + n) c.buffer);
      position = c.position + n;
    } in
    let size = write_size c.position n buf c.buffer h refl in
    let room : length c'.buffer - c'.position ≡ length c.buffer - c.position - n =
      omega (arith, size) in
    then-Holds c c' buf n (sink (length c.buffer - c.position - n) (k (ok n)))
      (decompress (k (ok n)) c') size refl (write_bytes c.position n buf c.buffer h refl)
      (omega arith)
      (subst (λ (m : ℕ). Holds c' (sink m (k (ok n))) (decompress (k (ok n)) c')) room
        (decompress-Holds (k (ok n)) c' (omega (arith, size))))

-- The run of a decompressor that was given a buffer of some length.
abbrev pub Fills : ℕ → Program → Option (List ℕ) → Decompressed → Type 0
Fills len f none d = (d.code ≡ 0) × (d.out ≡ none) × (d.frees ≡ 0)
Fills len f (some bytes) d =
    ((sink len f).0 ≡ true)
      × (length (sink len f).1 ≡ len)
      × (d.code ≡ 1)
      × (d.out ≡ some (sink len f).1)
      × (d.frees ≡ 0)
    ⊎ (((sink len f).0 ≡ false) ⊎ (length (sink len f).1 ≢ len))
      × (d.code ≡ 0)
      × (d.out ≡ none)
      × (d.frees ≡ 1)

build-Fills :
    (len : ℕ) (f : Program) (bytes : List ℕ) (r : Bool × CryptoBufferBuilder)
    → length bytes ≡ len
    → Holds (record { buffer = bytes; position = 0 }) (sink len f) r
    → Fills len f (some bytes) (finish_decompress r)
unfolding finish_decompress build
build-Fills len f bytes (false, c) e h = inr (inl (sym h.verdict), refl, refl, refl)
build-Fills len f bytes (true, c) e h = elim (Bool-cases (c.position == length c.buffer)) [
  | inl whole ↦ rw whole (
      inl (
        sym h.verdict,
        omega (arith, h.moved, h.size, ==→eq c.position (length c.buffer) whole),
        refl,
        ap some (
            sym (
              take_all c.position c.buffer
                (omega (arith, ==→eq c.position (length c.buffer) whole)))
            ∙ h.bytes),
        refl,
      ))
  | inr short ↦ rw short (inr (inr (λ k. ground (arith, h.moved, h.size, short)), refl, refl, refl))
]

-- If BoringSSL allocates a buffer of the length that it asked for: raw_ssl_cert_decompress returns 1
-- exactly when the decompressor ends with Ok and its writes filled that length, and then hands out
-- the bytes written, in order, and frees nothing; else it returns 0, hands out nothing, and frees
-- the buffer once. Without a buffer it returns 0 and frees nothing.
pub raw_ssl_cert_decompress-Fills :
    {S : Type 0} (f : List ℕ → Program) (alloc : ℕ → Option (List ℕ)) (len : ℕ) (input : List ℕ)
    → (s : S) → ((bytes : List ℕ) → alloc len ≡ some bytes → length bytes ≡ len)
    → (d : Decompressed) × (raw_ssl_cert_decompress (some f) alloc len input s ≡ (returned d, s))
      × Fills len (f input) (alloc len) d
unfolding raw_ssl_cert_decompress
raw_ssl_cert_decompress-Fills f alloc len input s sized =
    (with_buffer f input (alloc len), refl, filled (alloc len) (λ b e. sized b e))
  where
    filled :
        (o : Option (List ℕ))
        → ((b : List ℕ) → o ≡ some b → length b ≡ len)
        → Fills len (f input) o (with_buffer f input o)
    filled none e = (refl, refl, refl)
    filled (some bytes) e = build-Fills len (f input) bytes _ (e bytes refl) (
        subst
          (λ (m : ℕ).
            Holds (record { buffer = bytes; position = 0 }) (sink m (f input))
              (decompress (f input) (record { buffer = bytes; position = 0 })))
          (omega (arith, e bytes refl))
          (decompress-Holds (f input) (record { buffer = bytes; position = 0 }) (omega arith)))
