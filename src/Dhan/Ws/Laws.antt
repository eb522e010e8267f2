-- ===== src/Dhan/Ws/Laws.antt =====
-- The size of a subscription packet, and what the groups of a subscription hold.
use nautilus_trader_india.Prelude.{
  ℕ, zero, suc, ◌+◌, ◌-◌, ◌*◌, ◌≤◌, ◌<◌, ◌≡◌, refl, ap, sym, ◌∙◌, List, [], ◌∷◌, ◌++◌, length, take,
  replicate, false, drop, ltb, leb, arith, All, length-append, length-take, length-drop,
  length-replicate, take-append-drop,
}
use nautilus_trader_india.Dhan.Exc.{ok, >>=-ok, raise_if-ok, value_error}
use nautilus_trader_india.Dhan.Ws.{
  Slot, bytes_of, pack, fill, slot, slots, empty_slots, header, subscription_packet, groups,
  chunked,
}

length-bytes_of : (width n : ℕ) → length (bytes_of width n) ≡ width
unfolding bytes_of
length-bytes_of zero n = refl
length-bytes_of (suc width) n = ap suc (length-bytes_of width _)

length-pack :
    (width bound n : ℕ) (bytes : List ℕ) → pack width bound n ≡ ok bytes → length bytes ≡ width
unfolding pack
length-pack width bound n bytes h = ground (arith, length-bytes_of width n)

length-fill : (width : ℕ) (bytes : List ℕ) → length (fill width bytes) ≡ width
unfolding fill
length-fill width bytes =
    let zeros : List ℕ = replicate (width - length bytes) 0 in
    let zeros_long : length zeros ≡ width - length bytes =
      length-replicate (width - length bytes) 0 in
    omega (arith, length-take width (bytes ++ zeros), length-append bytes zeros, zeros_long)

length-slot : (s : Slot) (bytes : List ℕ) → slot s ≡ ok bytes → length bytes ≡ 21
unfolding slot
length-slot s bytes h =
    let (segment, packed, e) = >>=-ok (pack 1 256 s.segment) _ bytes h in
    let joined : segment ++ fill 20 s.security_id ≡ bytes = cc in
    omega (
      arith,
      sym (ap length joined),
      length-append segment (fill 20 s.security_id),
      length-fill 20 s.security_id,
      length-pack 1 256 s.segment segment packed,
    )

length-slots :
    (instruments : List Slot) (bytes : List ℕ)
    → slots instruments ≡ ok bytes
    → length bytes ≡ length instruments * 21
unfolding slots
length-slots [] bytes h = let e : [] ≡ bytes = cc in sym (ap length e)
length-slots (s ∷ rest) bytes h =
    let (_, after) = raise_if-ok (ltb 20 (length s.security_id)) value_error _ bytes h in
    let (one, packed, then) = >>=-ok (slot s) _ bytes after in
    let (others, all_packed, e) = >>=-ok (slots rest) _ bytes then in
    let joined : one ++ others ≡ bytes = cc in
    omega (
      arith,
      sym (ap length joined),
      length-append one others,
      length-slot s one packed,
      length-slots rest others all_packed,
    )

length-header :
    (request_code message_length : ℕ) (client_id bytes : List ℕ)
    → header request_code message_length client_id ≡ ok bytes
    → length bytes ≡ 83
unfolding header
length-header request_code message_length client_id bytes h =
    let (code, code_packed, after) = >>=-ok (pack 1 128 request_code) _ bytes h in
    let (size, size_packed, e) = >>=-ok (pack 2 65536 message_length) _ bytes after in
    let auth : List ℕ = replicate 50 0 in
    let auth_long : length auth ≡ 50 = length-replicate {A = ℕ} 50 0 in
    let joined : code ++ size ++ fill 30 client_id ++ auth ≡ bytes = cc in
    omega (
      arith,
      sym (ap length joined),
      length-append (code ++ size ++ fill 30 client_id) auth,
      length-append (code ++ size) (fill 30 client_id),
      length-append code size,
      length-fill 30 client_id,
      auth_long,
      length-pack 1 128 request_code code code_packed,
      length-pack 2 65536 message_length size size_packed,
    )

-- Every subscription packet that is built has the 2187 bytes of a full hundred slots, however few
-- instruments it names, and it never names more than a hundred.
pub length-subscription_packet :
    (client_id : List ℕ) (instruments : List Slot) (request_code : ℕ) (packet : List ℕ)
    → subscription_packet client_id instruments request_code ≡ ok packet
    → (length packet ≡ 2187) × (length instruments ≤ 100)
unfolding subscription_packet
length-subscription_packet client_id instruments request_code packet h =
    let size = 83 + 4 + length instruments * 21 in
    let (few, after) = raise_if-ok (ltb 100 (length instruments)) value_error _ packet h in
    let (count, counted, then) = >>=-ok (pack 4 4294967296 (length instruments)) _ packet after in
    let (body, filled, last) = >>=-ok (slots instruments) _ packet then in
    let (head, headed, e) = >>=-ok (header request_code size client_id) _ packet last in
    let rest = empty_slots (100 - length instruments) in
    let rest_long : length rest ≡ (100 - length instruments) * 21 = length-replicate _ 0 in
    let whole : head ++ count ++ body ++ rest ≡ packet = cc in
    let at_most : length instruments ≤ 100 = ground arith in
    (
      omega (
        arith,
        sym (ap length whole),
        length-append (head ++ count ++ body) rest,
        length-append (head ++ count) body,
        length-append head count,
        length-header request_code size client_id head headed,
        length-pack 4 4294967296 (length instruments) count counted,
        length-slots instruments body filled,
      ),
      at_most,
    )

-- The groups laid end to end.
abbrev pub joined : {A : Type 0} → List (List A) → List A
joined [] = []
joined (g ∷ gs) = g ++ joined gs

groups-joined :
    {A : Type 0} (fuel size : ℕ) (xs : List A)
    → 0 < size
    → length xs ≤ fuel
    → (joined (groups fuel size xs) ≡ xs) × All (λ g. length g ≤ size) (groups fuel size xs)
unfolding groups
groups-joined zero size [] positive enough = (refl, tt)
groups-joined zero size (x ∷ xs) positive enough = absurd (omega arith)
groups-joined (suc fuel) size [] positive enough = (refl, tt)
groups-joined (suc fuel) size (x ∷ xs) positive enough =
    let rest =
      groups-joined fuel size (drop size (x ∷ xs)) positive
        (omega (arith, length-drop size (x ∷ xs))) in
    (
      ap (λ r. take size (x ∷ xs) ++ r) rest.0 ∙ take-append-drop size (x ∷ xs),
      (omega (arith, length-take size (x ∷ xs)), rest.1),
    )

-- For a size that is not zero the groups hold every instrument once, in the order given, and none
-- holds more than the size.
pub chunked-joined :
    {A : Type 0} (size : ℕ) (xs : List A)
    → 0 < size
    → (gs : List (List A)) × (chunked size xs ≡ ok gs)
      × (joined gs ≡ xs)
      × All (λ g. length g ≤ size) gs
unfolding chunked
chunked-joined size xs positive =
    let (all, small) = groups-joined (length xs) size xs positive (omega arith) in
    let not_zero : leb size 0 ≡ false = ground arith in
    (groups (length xs) size xs, rw not_zero refl, all, small)
