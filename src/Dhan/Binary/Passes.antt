-- ===== src/Dhan/Binary/Passes.antt =====
-- The loops of both decoders come to an end: each pass stops or goes on with fewer bytes.
use nautilus_trader_india.Prelude.{
  ℕ, suc, ◌<◌, ◌≤◌, ltb, Bool, true, false, refl, if◌then◌else◌, drop, ◌==◌, ◌||◌, ◌≡◌, List,
  Option, none, some, length, length-drop, arith, pos, negsuc, ℤ,
}
use nautilus_trader_india.Dhan.Binary.Loop.{Next, run, run_all, Fewer, run-eq_of_enough}
use nautilus_trader_india.Dhan.Binary.Packet
use nautilus_trader_india.Dhan.Binary.Feed
use nautilus_trader_india.Dhan.Binary.Feed.{Progress}
use nautilus_trader_india.Dhan.Binary.Depth20
use nautilus_trader_india.Dhan.Binary.Depth20.{Depth}

skip_unknown-Fewer :
    (h : Packet.Header) (rest : List ℕ) (p : Progress)
    → 8 ≤ length rest
    → Fewer rest (Feed.skip_unknown h rest p)
unfolding Feed.skip_unknown
skip_unknown-Fewer h rest p long = ground (arith, length-drop h.message_length rest)

take_known-Fewer :
    (known : ℕ) (h : Packet.Header) (rest : List ℕ) (p : Progress)
    → 0 < known
    → Fewer rest (Feed.take_known known h rest p)
unfolding Feed.take_known
take_known-Fewer known h rest p large = ground (arith, length-drop known rest)

packet_size-large : (code known : ℕ) → Packet.packet_size code ≡ some known → 8 < known
unfolding Packet.packet_size
packet_size-large code known h = ground arith

pass-Fewer :
    (size : Option ℕ) (h : Packet.Header) (rest : List ℕ) (p : Progress)
    → Packet.packet_size h.code ≡ size
    → 8 ≤ length rest
    → Fewer rest (Feed.pass size h rest p)
unfolding Feed.pass
pass-Fewer none h rest p e long = skip_unknown-Fewer h rest p long
pass-Fewer (some known) h rest p e long =
    take_known-Fewer known h rest p (let l = packet_size-large h.code known e in omega arith)

skip-Fewer :
    (n : ℤ) (rest : List ℕ) (found : List Depth)
    → 12 ≤ length rest
    → Fewer rest (Depth20.skip n rest found)
unfolding Depth20.skip
skip-Fewer (negsuc n) rest found long = tt
skip-Fewer (pos n) rest found long = ground (arith, length-drop n rest)

-- A test decides between two passes.
choose-Fewer :
    {S : Type 0} (rest : List ℕ) (b : Bool) (x y : Next S)
    → (b ≡ true → Fewer rest x)
    → (b ≡ false → Fewer rest y)
    → Fewer rest (if b then x else y)
choose-Fewer rest true x y f g = f refl
choose-Fewer rest false x y f g = g refl

feed-Fewer : (rest : List ℕ) (p : Progress) → Fewer rest (Feed.step rest p)
unfolding Feed.step Feed.pass_on
feed-Fewer rest p =
    choose-Fewer rest (ltb (length rest) 8) _ _ (λ h. tt)
      (λ h. pass-Fewer _ _ rest p refl (ground arith))

cut_shrinks :
    (n : ℕ) (rest : List ℕ)
    → 0 < n
    → ltb (length rest) n ≡ false
    → length (drop n rest) < length rest
cut_shrinks n rest large h = ground (arith, length-drop n rest)

take_depth-Fewer :
    (h : Depth20.Header) (rest : List ℕ) (found : List Depth)
    → Fewer rest (Depth20.take_depth h rest found)
unfolding Depth20.take_depth
take_depth-Fewer h rest found =
    choose-Fewer rest (ltb (length rest) 332) _ _ (λ _. tt)
      (λ whole. cut_shrinks 332 rest (omega arith) whole)

depth20_pass-Fewer :
    (h : Depth20.Header) (rest : List ℕ) (found : List Depth)
    → 12 ≤ length rest
    → Fewer rest (Depth20.pass h rest found)
unfolding Depth20.pass
depth20_pass-Fewer h rest found long =
    choose-Fewer rest ((h.code == 41) || (h.code == 51)) _ _ (λ _. take_depth-Fewer h rest found)
      (λ _. skip-Fewer h.message_length rest found long)

depth20-Fewer : (rest : List ℕ) (found : List Depth) → Fewer rest (Depth20.step rest found)
unfolding Depth20.step
depth20-Fewer rest found =
    choose-Fewer rest (ltb (length rest) 12) _ _ (λ h. tt)
      (λ h. depth20_pass-Fewer _ rest found (ground arith))

-- Both decoders read a frame to its end, whatever its bytes: one pass more than it has bytes is
-- enough, and any larger number of passes gives the same.
pub run-ends :
    (n : ℕ) (bytes : List ℕ) (p : Progress) (found : List Depth)
    → length bytes < n
    → (run Feed.step n bytes p ≡ run_all Feed.step bytes p)
      × (run Depth20.step n bytes found ≡ run_all Depth20.step bytes found)
unfolding run_all
run-ends n bytes p found h = (
  run-eq_of_enough Feed.step feed-Fewer n (suc (length bytes)) bytes p h (omega arith),
  run-eq_of_enough Depth20.step depth20-Fewer n (suc (length bytes)) bytes found h (omega arith),
)
