-- ===== src/Dhan/Binary/Feed/Frames.antt =====
-- What the decoder finds in a frame that is made of whole packets.
use mathlib.Core.List.{append-nil, append_assoc}
use nautilus_trader_india.Prelude.{
  ℕ, zero, suc, ◌+◌, ◌≤◌, ◌<◌, ◌≡◌, refl, sym, ap, ◌∙◌, List, [], ◌∷◌, ◌++◌, Option, none, some,
  length, take, leb, ltb, arith, All, take-append, drop-append, length-append, true, false,
}
use nautilus_trader_india.Dhan.Binary.Bytes.{take-append_le}
use nautilus_trader_india.Dhan.Binary.Loop.{Next, stop, more, run, run_all}
use nautilus_trader_india.Dhan.Binary.Packet.{
  Header, header_of, header_size, packet_size, Packet, packet,
}
use nautilus_trader_india.Dhan.Binary.Feed.{
  Decoder, Progress, step, pass_on, pass, skip_unknown, take_known, frame, count_unknown,
  count_mismatch,
}

abbrev pub header : List ℕ → Header
header chunk = header_of (take header_size chunk)

-- The bytes of one packet: of its known size, or of a code that is not known and of the length
-- that its header claims.
pub data Whole (chunk : List ℕ) : Type 0 where
  known :
      packet_size (header chunk).code ≡ some (length chunk)
      → header_size ≤ length chunk
      → Whole chunk
  unknown :
      packet_size (header chunk).code ≡ none
      → (header chunk).message_length ≡ length chunk
      → header_size < length chunk
      → Whole chunk

-- The packets laid end to end, and the bytes after them.
unfoldable pub laid_out : List (List ℕ) → List ℕ → List ℕ
laid_out [] tail = tail
laid_out (chunk ∷ chunks) tail = chunk ++ laid_out chunks tail

-- A chunk's packet, where its code is known.
unfoldable pub found_in : Option ℕ → Header → List ℕ → List Packet
found_in none h chunk = []
found_in (some size) h chunk = packet h chunk ∷ []

-- The packets of known codes, in their order.
unfoldable pub packets_in : List (List ℕ) → List Packet
packets_in [] = []
packets_in (chunk ∷ chunks) =
    found_in (packet_size (header chunk).code) (header chunk) chunk ++ packets_in chunks

-- The decoder after one whole packet.
counted : Option ℕ → Header → Decoder → Decoder
counted none h d = count_unknown h.code d
counted (some size) h d = count_mismatch h.message_length size d

abbrev after : List ℕ → Progress → Progress
after chunk p =
    let size = packet_size (header chunk).code in
    record {
      decoder = counted size (header chunk) p.decoder;
      found = p.found ++ found_in size (header chunk) chunk;
    }

fits : (chunk rest : List ℕ) (n : ℕ) → n ≤ length chunk → ltb (length (chunk ++ rest)) n ≡ false
fits chunk rest n h = ground (arith, length-append chunk rest)

skip_unknown-whole :
    (h : Header) (chunk rest : List ℕ) (p : Progress)
    → h.message_length ≡ length chunk
    → header_size < length chunk
    → skip_unknown h (chunk ++ rest) p
      ≡ more rest (record p { decoder = count_unknown h.code p.decoder })
unfolding skip_unknown
skip_unknown-whole h chunk rest p same long =
    let long_enough : leb (length chunk) header_size ≡ false = ground arith in
    rw same (
      rw long_enough
        (rw (fits chunk rest (length chunk) (omega arith)) (rw (drop-append chunk rest) refl)))

take_known-whole :
    (h : Header) (chunk rest : List ℕ) (p : Progress)
    → take_known (length chunk) h (chunk ++ rest) p
      ≡ more rest (record {
        decoder = count_mismatch h.message_length (length chunk) p.decoder;
        found = p.found ++ packet h chunk ∷ [];
      })
unfolding take_known
take_known-whole h chunk rest p =
    rw (fits chunk rest (length chunk) (omega arith))
      (rw (take-append chunk rest) (rw (drop-append chunk rest) refl))

Whole-long : {chunk : List ℕ} → Whole chunk → header_size ≤ length chunk
Whole-long (known size long) = long
Whole-long (unknown none_known size long) = omega arith

pass-Whole :
    (chunk rest : List ℕ) (p : Progress)
    → Whole chunk
    → pass_on (header chunk) (chunk ++ rest) p ≡ more rest (after chunk p)
unfolding pass_on pass found_in counted
pass-Whole chunk rest p (known size long) = rw size (take_known-whole (header chunk) chunk rest p)
pass-Whole chunk rest p (unknown none_known size long) =
    rw none_known
      (rw (append-nil p.found) (skip_unknown-whole (header chunk) chunk rest p size long))

step-Whole :
    (chunk rest : List ℕ) (p : Progress)
    → Whole chunk
    → step (chunk ++ rest) p ≡ more rest (after chunk p)
unfolding step
step-Whole chunk rest p whole =
    rw (fits chunk rest header_size (Whole-long whole)) (
      rw (take-append_le header_size chunk rest (Whole-long whole)) (pass-Whole chunk rest p whole))

step-tail : (tail : List ℕ) (p : Progress) → length tail < header_size → step tail p ≡ stop p
unfolding step
step-tail tail p h =
    let short : ltb (length tail) header_size ≡ true = ground arith in rw short refl

abbrev after_all : List (List ℕ) → Progress → Progress
after_all [] p = p
after_all (chunk ∷ chunks) p = after_all chunks (after chunk p)

passed :
    (n : ℕ) (rest : List ℕ) (p : Progress) (next : Next Progress)
    → step rest p ≡ next
    → run step (suc n) rest p
      ≡ elim next as (λ _. Progress) [ stop s' ↦ s' | more rest' s' ↦ run step n rest' s' ]
unfolding run
passed n rest p next h =
    ap
      (λ (next : Next Progress). elim next as (λ _. Progress) [
        | stop s' ↦ s'
        | more rest' s' ↦ run step n rest' s'
      ])
      h

run-laid_out :
    (n : ℕ) (chunks : List (List ℕ)) (tail : List ℕ) (p : Progress)
    → All Whole chunks
    → length tail < header_size
    → length (laid_out chunks tail) < n
    → run step n (laid_out chunks tail) p ≡ after_all chunks p
unfolding run laid_out
run-laid_out zero chunks tail p whole short h = absurd (omega arith)
run-laid_out (suc n) [] tail p whole short h = passed _ _ _ _ (step-tail tail p short)
run-laid_out (suc n) (chunk ∷ chunks) tail p whole short h =
    let long = Whole-long whole.0 in
    passed _ _ _ _ (step-Whole chunk (laid_out chunks tail) p whole.0)
    ∙ (run-laid_out n chunks tail (after chunk p) whole.1 short
        (omega (arith, length-append chunk (laid_out chunks tail))))

after_all-found :
    (chunks : List (List ℕ)) (p : Progress)
    → (after_all chunks p).found ≡ p.found ++ packets_in chunks
unfolding packets_in
after_all-found [] p = sym (append-nil p.found)
after_all-found (chunk ∷ chunks) p =
    after_all-found chunks (after chunk p) ∙ append_assoc p.found _ _

counted-kept :
    (size : Option ℕ) (h : Header) (d : Decoder)
    → ((counted size h d).truncated ≡ d.truncated) × ((counted size h d).packets ≡ d.packets)
unfolding counted count_unknown count_mismatch
counted-kept none h d = (refl, refl)
counted-kept (some size) h d = ground arith

after_all-kept :
    (chunks : List (List ℕ)) (p : Progress)
    → ((after_all chunks p).decoder.truncated ≡ p.decoder.truncated)
      × ((after_all chunks p).decoder.packets ≡ p.decoder.packets)
after_all-kept [] p = (refl, refl)
after_all-kept (chunk ∷ chunks) p =
    let kept = after_all-kept chunks (after chunk p) in
    let one = counted-kept (packet_size (header chunk).code) (header chunk) p.decoder in
    (kept.0 ∙ one.0, kept.1 ∙ one.1)

-- A frame of whole packets laid end to end, with fewer than 8 bytes after them, is decoded into
-- all packets of known codes, each with its own fields, in their order: none after the first is
-- lost, and those of unknown codes are skipped by the length they claim. Nothing is counted as
-- truncated, and the packets found are added to the count.
pub frame-laid_out :
    (chunks : List (List ℕ)) (tail : List ℕ) (d : Decoder)
    → All Whole chunks
    → length tail < header_size
    → let out = frame (laid_out chunks tail) d in
      (out.0 ≡ packets_in chunks)
      × (out.1.truncated ≡ d.truncated)
      × (out.1.packets ≡ d.packets + length (packets_in chunks))
unfolding frame run_all
frame-laid_out chunks tail d whole short =
    let p : Progress = record { decoder = record d { frames = suc d.frames }; found = [] } in
    let done =
      run-laid_out (suc (length (laid_out chunks tail))) chunks tail p whole short (omega arith) in
    let kept = after_all-kept chunks p in
    let found = after_all-found chunks p in
    rw done (found, kept.0, omega (arith, kept.1, ap length found))
