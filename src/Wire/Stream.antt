-- ===== src/Wire/Stream.antt =====
-- The abstract decoder: a function of the bytes that are pending, with no buffer and no position.
-- It neither depends on how the bytes were split into reads nor runs out of fuel.
use mathlib.Core.Path.{subst}
use tortor.Prelude.{
  ℕ, zero, suc, ◌+◌, ◌-◌, ◌≤◌, ◌<◌, ◌≡◌, ◌≢◌, refl, sym, ap, ◌∙◌, inl, inr, false, Option, none,
  some, List, [], ◌∷◌, ◌++◌, ltb, ◌==◌, Bool-cases, length, drop, slice, get_or, length-append,
  length-drop, get_or-append, drop-append, take-append, arith, tests, le→ltb_false,
}
use tortor.Prelude.Result.{Result, ok, err}
use tortor.Wire.{
  PeerMessage, WireError, out_of_fuel, Round, wait, fail, frame, round, framed, parse_frame, parse,
  be32_at, max_message_len,
}

unfoldable pub decode_stream : ℕ → List ℕ → Result WireError (Option PeerMessage) × List ℕ
decode_stream zero s = (err out_of_fuel, s)
decode_stream (suc fuel) s = elim (round s) [
  | wait ↦ (ok none, s)
  | fail e ↦ (err e, s)
  | frame (some msg) n ↦ (ok (some msg), drop n s)
  | frame none n ↦ decode_stream fuel (drop n s)
]

-- A frame takes four bytes at least and lies within the input.
pub round-frame :
    (s : List ℕ) (m : Option PeerMessage) (n : ℕ) → round s ≡ frame m n → (4 ≤ n) × (n ≤ length s)
unfolding round framed
round-frame s m n e = ground arith

pub be32_at-append :
    (xs ys : List ℕ) (i : ℕ) → i + 4 ≤ length xs → be32_at (xs ++ ys) i ≡ be32_at xs i
be32_at-append xs ys i h = omega (
  arith,
  get_or-append xs ys i 0 (omega arith),
  get_or-append xs ys (i + 1) 0 (omega arith),
  get_or-append xs ys (i + 2) 0 (omega arith),
  get_or-append xs ys (i + 3) 0 (omega arith),
)

parse_frame-append :
    (len : ℕ) (s t : List ℕ) → 4 + len ≤ length s → parse_frame len (s ++ t) ≡ parse_frame len s
unfolding parse_frame
parse_frame-append len s t h = elim (Bool-cases (len == 0)) [
  | inl zero_len ↦ rw zero_len
  | inr more ↦
      let pos : 0 < len = ground arith in
      rw (
        get_or-append s t 4 0 (omega arith),
        drop-append 5 s t (omega arith),
        take-append (4 + len - 5) (drop 5 s) t (omega (arith, length-drop 5 s)),
      )
]

-- More input does not change a round that does not wait for it.
round-append : (s t : List ℕ) → round s ≢ wait → round (s ++ t) ≡ round s
unfolding round
round-append s t go = elim (Bool-cases (ltb (length s) 4)) [
  | inl short ↦ absurd (go (rw (short, round)))
  | inr enough ↦
      let four : 4 ≤ length s = ground arith in
      let long : ltb (length (s ++ t)) 4 ≡ false = omega (tests, le→ltb_false, length-append s t) in
      elim (Bool-cases (ltb max_message_len (be32_at s 0))) [
        | inl big ↦ rw (be32_at-append s t 0 four, long, enough, big)
        | inr fits ↦ elim (Bool-cases (ltb (length s) (4 + be32_at s 0))) [
          | inl short ↦ absurd (go (rw (enough, fits, short, round)))
          | inr whole ↦
              let within : 4 + be32_at s 0 ≤ length s = ground arith in
              let longer : ltb (length (s ++ t)) (4 + be32_at s 0) ≡ false =
                omega (tests, le→ltb_false, length-append s t) in
              rw (
                be32_at-append s t 0 four,
                long,
                enough,
                fits,
                longer,
                whole,
                parse_frame-append (be32_at s 0) s t within,
              )
        ]
      ]
]

-- The result does not depend on the fuel, once there is a unit for each byte and one more.
pub decode_stream_fuel :
    (f g : ℕ) (s : List ℕ) → length s < f → length s < g → decode_stream f s ≡ decode_stream g s
unfolding decode_stream
decode_stream_fuel zero g s hf hg = absurd (omega arith)
decode_stream_fuel (suc f) zero s hf hg = absurd (omega arith)
decode_stream_fuel (suc f) (suc g) s hf hg =
    by_round (round s) refl (λ n (b : (4 ≤ n) × (n ≤ length s)).
      decode_stream_fuel f g (drop n s) (omega (arith, length-drop n s))
        (omega (arith, length-drop n s)))
  where
    by_round :
        (r : Round)
        → round s ≡ r
        → ((n : ℕ)
            → (4 ≤ n) × (n ≤ length s)
            → decode_stream f (drop n s) ≡ decode_stream g (drop n s))
        → decode_stream (suc f) s ≡ decode_stream (suc g) s
    by_round wait e ih = rw (e, decode_stream)
    by_round (fail x) e ih = rw (e, decode_stream)
    by_round (frame (some m) n) e ih = rw (e, decode_stream)
    by_round (frame none n) e ih = rw (e, decode_stream) (ih n (round-frame s none n e))

abbrev pub decode_all : List ℕ → Result WireError (Option PeerMessage) × List ℕ
decode_all s = decode_stream (suc (length s)) s

parse-ne-out_of_fuel : (id : ℕ) (payload : List ℕ) → parse id payload ≢ err out_of_fuel
unfolding parse
parse-ne-out_of_fuel id [] e = ground arith
parse-ne-out_of_fuel id (x ∷ payload) e = ground arith

round-ne-out_of_fuel : (s : List ℕ) → round s ≢ fail out_of_fuel
unfolding round framed parse_frame
round-ne-out_of_fuel s e =
    ground (arith, parse-ne-out_of_fuel (get_or s 4 0) (slice 5 (4 + be32_at s 0) s))

-- The loop never ends for want of fuel.
pub decode_stream-ne-out_of_fuel :
    (f : ℕ) (s : List ℕ) → length s < f → (decode_stream f s).0 ≢ err out_of_fuel
unfolding decode_stream
decode_stream-ne-out_of_fuel zero s h = absurd (omega arith)
decode_stream-ne-out_of_fuel (suc f) s h =
    by_round (round s) refl (λ n (b : (4 ≤ n) × (n ≤ length s)).
      decode_stream-ne-out_of_fuel f (drop n s) (omega (arith, length-drop n s)))
  where
    by_round :
        (r : Round)
        → round s ≡ r
        → ((n : ℕ) → (4 ≤ n) × (n ≤ length s) → (decode_stream f (drop n s)).0 ≢ err out_of_fuel)
        → (decode_stream (suc f) s).0 ≢ err out_of_fuel
    by_round wait e ih = rw (e, decode_stream) (cc)
    by_round (fail x) e ih = rw (e, decode_stream) (λ eq. round-ne-out_of_fuel s (cc))
    by_round (frame (some m) n) e ih = rw (e, decode_stream) (cc)
    by_round (frame none n) e ih = rw (e, decode_stream) (ih n (round-frame s none n e))

-- What `s` decodes to, more input does not change, unless `s` ends inside a message.
pub decode_stream-append :
    (f : ℕ) (s t : List ℕ)
    → length s < f
    → (decode_stream f s).0 ≢ ok none
    → decode_stream f (s ++ t) ≡ ((decode_stream f s).0, (decode_stream f s).1 ++ t)
unfolding decode_stream
decode_stream-append zero s t h go = absurd (omega arith)
decode_stream-append (suc f) s t h go =
    by_round (round s) refl
      (λ n (b : (4 ≤ n) × (n ≤ length s)).
        decode_stream-append f (drop n s) t (omega (arith, length-drop n s)))
      go
  where
    by_round :
        (r : Round)
        → round s ≡ r
        → ((n : ℕ)
            → (4 ≤ n) × (n ≤ length s)
            → (decode_stream f (drop n s)).0 ≢ ok none
            → decode_stream f (drop n s ++ t)
              ≡ ((decode_stream f (drop n s)).0, (decode_stream f (drop n s)).1 ++ t))
        → (decode_stream (suc f) s).0 ≢ ok none
        → decode_stream (suc f) (s ++ t)
          ≡ ((decode_stream (suc f) s).0, (decode_stream (suc f) s).1 ++ t)
    by_round wait e ih go = absurd (go (rw (e, decode_stream)))
    by_round (fail x) e ih go = rw (round-append s t (λ w. cc), e, decode_stream)
    by_round (frame (some m) n) e ih go =
        rw (round-append s t (λ w. cc), e, decode_stream)
          (ap (λ r. (ok (some m), r)) (drop-append n s t (round-frame s (some m) n e).1))
    by_round (frame none n) e ih go =
        rw (round-append s t (λ w. cc), e, decode_stream)
          (ap (decode_stream f) (drop-append n s t (round-frame s none n e).1)
            ∙ ih n (round-frame s none n e) (rw (e, decode_stream) at go))

-- What a waiting decoder leaves stands for all the bytes that it read: decoding goes on from there
-- as it would from the start.
pub decode_stream_resume :
    (f g h : ℕ) (s t : List ℕ)
    → length s < f
    → length (s ++ t) < g
    → length ((decode_stream f s).1 ++ t) < h
    → (decode_stream f s).0 ≡ ok none
    → decode_stream g (s ++ t) ≡ decode_stream h ((decode_stream f s).1 ++ t)
unfolding decode_stream
decode_stream_resume zero g h s t hf hg hh e = absurd (omega arith)
decode_stream_resume (suc f) zero h s t hf hg hh e = absurd (omega arith)
decode_stream_resume (suc f) (suc g) h s t hf hg hh e =
    by_round (round s) refl
      (λ n (b : (4 ≤ n) × (n ≤ length s)).
        decode_stream_resume f g h (drop n s) t (omega (arith, length-drop n s))
          (omega (arith, length-drop n s, length-append s t, length-append (drop n s) t)))
      hh e
  where
    by_round :
        (r : Round)
        → round s ≡ r
        → ((n : ℕ)
            → (4 ≤ n) × (n ≤ length s)
            → length ((decode_stream f (drop n s)).1 ++ t) < h
            → (decode_stream f (drop n s)).0 ≡ ok none
            → decode_stream g (drop n s ++ t)
              ≡ decode_stream h ((decode_stream f (drop n s)).1 ++ t))
        → length ((decode_stream (suc f) s).1 ++ t) < h
        → (decode_stream (suc f) s).0 ≡ ok none
        → decode_stream (suc g) (s ++ t) ≡ decode_stream h ((decode_stream (suc f) s).1 ++ t)
    by_round wait r ih hh e =
        let step : decode_stream (suc f) s ≡ (ok none, s) = rw (r, decode_stream) in
        decode_stream_fuel (suc g) h (s ++ t) hg (subst (λ d. length (d.1 ++ t) < h) step hh)
        ∙ ap (λ d. decode_stream h (d.1 ++ t)) (sym step)
    by_round (fail x) r ih hh e = cc (rw (r, decode_stream) at e)
    by_round (frame (some m) n) r ih hh e = cc (rw (r, decode_stream) at e)
    by_round (frame none n) r ih hh e =
        let b = round-frame s none n r in
        let step : decode_stream (suc f) s ≡ decode_stream f (drop n s) = rw (r, decode_stream) in
        let longer : round (s ++ t) ≡ frame none n = round-append s t (λ w. cc) ∙ r in
        let step' : decode_stream (suc g) (s ++ t) ≡ decode_stream g (drop n (s ++ t)) =
          rw (longer, decode_stream) in
        step'
        ∙ ap (decode_stream g) (drop-append n s t b.1)
        ∙ ih n b (subst (λ d. length (d.1 ++ t) < h) step hh) (ap (λ d. d.0) (sym step) ∙ e)
        ∙ ap (λ d. decode_stream h (d.1 ++ t)) (sym step)
