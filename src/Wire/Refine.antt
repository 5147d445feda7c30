-- ===== src/Wire/Refine.antt =====
-- The buffered decoder implements the abstract one: on the bytes that are pending it returns what
-- `decode_stream` returns, and leaves what that leaves. So reads may split the bytes anywhere.
use tortor.Prelude.{
  ℕ, zero, suc, ◌+◌, ◌≤◌, ◌≡◌, ◌≢◌, refl, sym, ap, ◌∙◌, inl, inr, Option, none, some, List, ◌++◌,
  leb, ◌==◌, Bool-cases, ==→≡, length, drop, length-append, length-drop, drop-append, drop-drop,
  drop_all, arith,
}
use tortor.Prelude.Result.{Result, ok, err}
use tortor.Wire.{
  PeerMessage, WireError, out_of_fuel, Round, wait, fail, frame, round, MessageDecoder, Decoded,
  feed, compact, compact_threshold, decode_loop, decode,
}
use tortor.Wire.Stream.{
  decode_stream, decode_all, decode_stream-ne-out_of_fuel, decode_stream_fuel, round-frame,
  decode_stream_resume, decode_stream-append,
}

abbrev pub pending : MessageDecoder → List ℕ
pending d = drop d.pos d.buf

abbrev pub IsValid : MessageDecoder → Type 0
IsValid d = d.pos ≤ length d.buf

pub compact-pending :
    (d : MessageDecoder) → IsValid d → (pending (compact d) ≡ pending d) × IsValid (compact d)
unfolding compact
compact-pending d v = elim (Bool-cases (d.pos == length d.buf)) [
  | inl e ↦
      let eq : d.pos ≡ length d.buf = ==→≡ _ _ e in
      rw e (sym (drop_all d.pos d.buf (omega arith)), omega arith)
  | inr ne ↦ elim (Bool-cases (leb compact_threshold d.pos)) [
    | inl big ↦ rw (ne, big) (refl, omega arith)
    | inr small ↦ rw (ne, small) (refl, v)
  ]
]

-- The decoder forgets to a result and the pending bytes.
abbrev pub view : Decoded → Result WireError (Option PeerMessage) × List ℕ
view (r, d) = (r, pending d)

decode_loop-view :
    (fuel : ℕ) (d : MessageDecoder)
    → IsValid d
    → (view (decode_loop fuel d) ≡ decode_stream fuel (pending d)) × IsValid (decode_loop fuel d).1
unfolding decode_loop decode_stream
decode_loop-view zero d v = (refl, v)
decode_loop-view (suc fuel) d v = by_round (round (pending d)) refl (λ n b.
    let rest =
      decode_loop-view fuel (record d { pos = d.pos + n })
        (omega (arith, length-drop d.pos d.buf)) in
    (rest.0 ∙ ap (decode_stream fuel) (sym (drop-drop n d.pos d.buf)), rest.1))
  where
    by_round :
        (r : Round)
        → round (pending d) ≡ r
        → ((n : ℕ)
            → n ≤ length (pending d)
            → (view (decode_loop fuel (record d { pos = d.pos + n }))
                ≡ decode_stream fuel (drop n (pending d)))
              × IsValid (decode_loop fuel (record d { pos = d.pos + n })).1)
        → (view (decode_loop (suc fuel) d) ≡ decode_stream (suc fuel) (pending d))
          × IsValid (decode_loop (suc fuel) d).1
    by_round wait e ih =
        rw (e, decode_loop, decode_stream)
          (ap (λ s. (ok none, s)) (compact-pending d v).0, (compact-pending d v).1)
    by_round (fail x) e ih = rw (e, decode_loop, decode_stream) (refl, v)
    by_round (frame (some m) n) e ih =
        rw (e, decode_loop, decode_stream)
          (
            ap (λ s. (ok (some m), s)) (sym (drop-drop n d.pos d.buf)),
            omega (arith, (round-frame _ (some m) n e).1, length-drop d.pos d.buf),
          )
    by_round (frame none n) e ih =
        rw (e, decode_loop, decode_stream) (ih n (round-frame _ none n e).1)

-- On a decoder whose position lies in its buffer, `decode` returns what the abstract decoder
-- returns on the pending bytes, leaves the bytes that it leaves, and keeps the position in the
-- buffer.
pub decode_refines :
    (d : MessageDecoder)
    → IsValid d
    → (view (decode d) ≡ decode_all (pending d)) × IsValid (decode d).1
unfolding decode
decode_refines d v =
    let loop = decode_loop-view (suc (length d.buf)) d v in
    (
      loop.0
          ∙ decode_stream_fuel (suc (length d.buf)) (suc (length (pending d))) (pending d)
              (omega (arith, length-drop d.pos d.buf)) (omega arith),
      loop.1,
    )

-- Feeding bytes appends them to the pending ones.
pub pending-feed :
    (d : MessageDecoder) (bytes : List ℕ)
    → IsValid d
    → (pending (feed d bytes) ≡ pending d ++ bytes) × IsValid (feed d bytes)
unfolding feed
pending-feed d bytes v = (drop-append d.pos d.buf bytes v, omega (arith, length-append d.buf bytes))

-- However the bytes are split into reads, the messages are the same: a decoder with its position
-- in its buffer that waits, is fed and decodes again returns the result, and leaves the bytes, of
-- one that was fed before it decoded at all.
pub decode_split :
    (d : MessageDecoder) (bytes : List ℕ)
    → IsValid d
    → (decode d).0 ≡ ok none
    → view (decode (feed (decode d).1 bytes)) ≡ view (decode (feed d bytes))
decode_split d bytes v waits =
    let run = decode_refines d v in
    let later = pending-feed (decode d).1 bytes run.1 in
    let early = pending-feed d bytes v in
    let left : (decode_all (pending d)).1 ≡ pending (decode d).1 = ap (λ r. r.1) (sym run.0) in
    (decode_refines (feed (decode d).1 bytes) later.1).0
    ∙ ap decode_all (later.0 ∙ ap (λ s. s ++ bytes) (sym left))
    ∙ sym (
        decode_stream_resume _ _ _ (pending d) bytes (omega arith) (omega arith) (omega arith)
          (ap (λ r. r.0) (sym run.0) ∙ waits))
    ∙ ap decode_all (sym early.0)
    ∙ sym (decode_refines (feed d bytes) early.1).0

-- With the position in the buffer, a message or an error is final: it is returned again when more
-- bytes were fed first, and those are left pending behind the others.
pub decode_final :
    (d : MessageDecoder) (bytes : List ℕ)
    → IsValid d
    → (decode d).0 ≢ ok none
    → view (decode (feed d bytes)) ≡ ((decode d).0, pending (decode d).1 ++ bytes)
decode_final d bytes v go =
    let run = decode_refines d v in
    let early = pending-feed d bytes v in
    let f : ℕ = suc (length (pending d ++ bytes)) in
    let same : decode_stream f (pending d) ≡ view (decode d) =
      decode_stream_fuel f (suc (length (pending d))) (pending d)
        (omega (arith, length-append (pending d) bytes)) (omega arith)
      ∙ sym run.0 in
    (decode_refines (feed d bytes) early.1).0
    ∙ ap decode_all early.0
    ∙ decode_stream-append f (pending d) bytes (omega (arith, length-append (pending d) bytes))
        (λ e. go (ap (λ r. r.0) (sym same) ∙ e))
    ∙ ap (λ (r : Result WireError (Option PeerMessage) × List ℕ). (r.0, r.1 ++ bytes)) same

-- The loop of `decode` ends: on a decoder whose position lies in its buffer, no call ends for want
-- of fuel.
pub decode-ne-out_of_fuel : (d : MessageDecoder) → IsValid d → (decode d).0 ≢ err out_of_fuel
decode-ne-out_of_fuel d v e =
    decode_stream-ne-out_of_fuel (suc (length (pending d))) (pending d) (omega arith)
      (ap (λ r. r.0) (sym (decode_refines d v).0) ∙ e)
