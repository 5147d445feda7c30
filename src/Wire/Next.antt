-- ===== src/Wire/Next.antt =====
-- `MessageDecoder::next` of src/net/wire.rs over the reads of a stream, one list of bytes for each;
-- an empty read is the end of the stream.
use tortor.Prelude.{
  ℕ, zero, suc, ◌<◌, ◌≡◌, ◌≢◌, ◌⊎◌, inl, inr, refl, sym, ap, ◌∙◌, Option, none, some, List, [], ◌∷◌,
  ◌++◌, length, All, append_assoc, append-nil, length-append, arith,
}
use tortor.Prelude.Result.{Result, ok, err}
use tortor.Wire.{PeerMessage, WireError, MessageDecoder, feed, decode, Decoded}
use tortor.Wire.Send.{send}
use tortor.Wire.Refine.{IsValid, pending, decode_refines, decode_split, decode_final}
use tortor.Wire.RoundTrip.{IsSendable, decode-send}

-- What `next` comes to: a message, an error of the decoder, the end of the stream, or a wait for a
-- read that is not there yet. The decoder keeps what it has read in each case.
pub data Outcome : Type 0 where
  message : PeerMessage → Outcome
  failed : WireError → Outcome
  closed waiting : Outcome

-- One round of the loop, given the read that comes next.
unfoldable pub on_decoded :
    Decoded
    → List (List ℕ)
    → (MessageDecoder → List (List ℕ) → Outcome × MessageDecoder)
    → Outcome × MessageDecoder
on_decoded (ok (some m), d) reads again = (message m, d)
on_decoded (err e, d) reads again = (failed e, d)
on_decoded (ok none, d) [] again = (waiting, d)
on_decoded (ok none, d) ([] ∷ reads) again = (closed, d)
on_decoded (ok none, d) ((b ∷ bs) ∷ reads) again = again (feed d (b ∷ bs)) reads

unfoldable pub next_loop : ℕ → MessageDecoder → List (List ℕ) → Outcome × MessageDecoder
unfolding on_decoded
next_loop zero d reads = (waiting, d)
next_loop (suc rounds) d reads = on_decoded (decode d) reads (next_loop rounds)

-- A round takes a read, so one for each and one more is enough.
unfoldable pub next : MessageDecoder → List (List ℕ) → Outcome × MessageDecoder
unfolding next_loop
next d reads = next_loop (suc (length reads)) d reads

abbrev pub joined : List (List ℕ) → List ℕ
joined [] = []
joined (r ∷ reads) = r ++ joined reads

feed-IsValid : (d : MessageDecoder) (bytes : List ℕ) → IsValid d → IsValid (feed d bytes)
unfolding feed
feed-IsValid d bytes v = omega (arith, length-append d.buf bytes)

feed_twice : (d : MessageDecoder) (a b : List ℕ) → feed (feed d a) b ≡ feed d (a ++ b)
unfolding feed
feed_twice d a b = ap (λ buf. record d { buf = buf }) (append_assoc d.buf a b)

feed_nothing : (d : MessageDecoder) → feed d [] ≡ d
unfolding feed
feed_nothing d = ap (λ buf. record d { buf = buf }) (append-nil d.buf)

on_message :
    (r : Decoded) (m : PeerMessage) (reads : List (List ℕ))
    (again : MessageDecoder → List (List ℕ) → Outcome × MessageDecoder)
    → r.0 ≡ ok (some m)
    → (on_decoded r reads again).0 ≡ message m
unfolding on_decoded
on_message (ok (some m'), d) m reads again e =
    let same : m' ≡ m = ground (arith, e) in ap message same
on_message (err x, d) m reads again e = absurd (ground (arith, e))
on_message (ok none, d) m reads again e = absurd (ground (arith, e))

on_wait :
    (r : Decoded) (b : ℕ) (bs : List ℕ) (reads : List (List ℕ))
    (again : MessageDecoder → List (List ℕ) → Outcome × MessageDecoder)
    → r.0 ≡ ok none
    → on_decoded r ((b ∷ bs) ∷ reads) again ≡ again (feed r.1 (b ∷ bs)) reads
unfolding on_decoded
on_wait (ok none, d) b bs reads again e = refl
on_wait (ok (some m), d) b bs reads again e = absurd (ground (arith, e))
on_wait (err x, d) b bs reads again e = absurd (ground (arith, e))

settled : (r : Result WireError (Option PeerMessage)) → (r ≡ ok none) ⊎ (r ≢ ok none)
settled (ok none) = inl refl
settled (ok (some m)) = inr (λ e. ground (arith, e))
settled (err x) = inr (λ e. ground (arith, e))

next_loop-message :
    (reads : List (List ℕ)) (d : MessageDecoder) (m : PeerMessage)
    → IsValid d
    → All (λ r. 0 < length r) reads
    → (decode (feed d (joined reads))).0 ≡ ok (some m)
    → (next_loop (suc (length reads)) d reads).0 ≡ message m
unfolding next_loop
next_loop-message [] d m v full e =
    on_message (decode d) m [] _ (ap (λ d. (decode d).0) (sym (feed_nothing d)) ∙ e)
next_loop-message ([] ∷ reads) d m v full e = absurd (omega (arith, full.0))
next_loop-message ((b ∷ bs) ∷ reads) d m v full e = elim (settled (decode d).0) [
  | inr final ↦
      on_message (decode d) m ((b ∷ bs) ∷ reads) _
        (sym (ap (λ r. r.0) (decode_final d ((b ∷ bs) ++ joined reads) v final)) ∙ e)
  | inl waits ↦
      let d' = (decode d).1 in
      let fed = feed d' (b ∷ bs) in
      let whole : (decode (feed fed (joined reads))).0 ≡ ok (some m) =
        ap (λ d. (decode d).0) (feed_twice d' (b ∷ bs) (joined reads))
        ∙ ap (λ r. r.0) (decode_split d ((b ∷ bs) ++ joined reads) v waits)
        ∙ e in
      ap (λ r. r.0) (on_wait (decode d) b bs reads (next_loop (suc (length reads))) waits)
      ∙ next_loop-message reads fed m (feed-IsValid d' (b ∷ bs) (decode_refines d v).1) full.1 whole
]

-- However a stream is split into reads, none of them empty: if it begins with the bytes of a
-- message that can be sent, `next` on a decoder with nothing pending returns that message.
pub next-send :
    (d : MessageDecoder) (m : PeerMessage) (rest : List ℕ) (reads : List (List ℕ))
    → IsValid d
    → pending d ≡ []
    → IsSendable m
    → All (λ r. 0 < length r) reads
    → joined reads ≡ send m ++ rest
    → (next d reads).0 ≡ message m
unfolding next
next-send d m rest reads v empty sendable full e =
    next_loop-message reads d m v full
      (ap (λ s. (decode (feed d s)).0) e ∙ ap (λ r. r.0) (decode-send d m rest v empty sendable))
