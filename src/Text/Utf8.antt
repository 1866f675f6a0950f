-- ===== src/Text/Utf8.antt =====
-- `String::from_utf8_lossy`: each maximal part of the bytes that is no UTF-8 becomes U+FFFD.
use pv_matter.Common.{
  ℕ, zero, suc, ◌+◌, ◌-◌, ◌*◌, ◌<◌, ◌≡◌, refl, ◌&&◌, List, [], ◌∷◌, ◌++◌, arith, ltb, leb, ◌==◌,
  if◌then◌else◌, All,
}
use pv_matter.Text.{Text}

-- What the decoder waits for: nothing, or `left` more bytes, the next one from `low` to `high`.
pub data Decoder : Type 0 where
  idle : Decoder
  within : (left low high acc : ℕ) → Decoder

abbrev replacement : ℕ
replacement = 0xFFFD

-- A byte where a character begins: what it puts out, and the next state.
begin : ℕ → Text × Decoder
begin b =
    if ltb b 0x80
    then (b ∷ [], idle)
    else if leb 0xC2 b && leb b 0xDF
    then ([], within 1 0x80 0xBF (b - 0xC0))
    else if b == 0xE0
    then ([], within 2 0xA0 0xBF 0)
    else if b == 0xED
    then ([], within 2 0x80 0x9F 0xD)
    else if leb 0xE1 b && leb b 0xEF
    then ([], within 2 0x80 0xBF (b - 0xE0))
    else if b == 0xF0
    then ([], within 3 0x90 0xBF 0)
    else if leb 0xF1 b && leb b 0xF3
    then ([], within 3 0x80 0xBF (b - 0xF0))
    else if b == 0xF4
    then ([], within 3 0x80 0x8F 4)
    else (replacement ∷ [], idle)

-- A byte that continues a character.
extend : ℕ → ℕ → Text × Decoder
extend zero acc = (acc ∷ [], idle)
extend (suc zero) acc = (acc ∷ [], idle)
extend (suc (suc left)) acc = ([], within (suc left) 0x80 0xBF acc)

abbrev restart : Text × Decoder → Text × Decoder
restart (out, d) = (replacement ∷ out, d)

feed : Decoder → ℕ → Text × Decoder
feed idle b = begin b
feed (within left low high acc) b =
    if leb low b && leb b high then extend left (acc * 64 + (b - 0x80)) else restart (begin b)

decode : Decoder → List ℕ → Text
decode idle [] = []
decode (within left low high acc) [] = replacement ∷ []
decode d (b ∷ bytes) = (feed d b).0 ++ decode (feed d b).1 bytes

unfoldable pub from_utf8_lossy : List ℕ → Text
unfolding decode feed begin extend
from_utf8_lossy bytes = decode idle bytes

-- ASCII is decoded byte by byte.
pub from_utf8_lossy_of_ascii : (s : List ℕ) → All (λ b. b < 0x80) s → from_utf8_lossy s ≡ s
unfolding from_utf8_lossy
from_utf8_lossy_of_ascii [] h = refl
from_utf8_lossy_of_ascii (b ∷ s) h = ground (arith, from_utf8_lossy_of_ascii s h.1)

decodes_multibyte :
    from_utf8_lossy (
      0xC3 ∷ 0xA9 ∷ 0xE2 ∷ 0x82 ∷ 0xAC ∷ 0xF0 ∷ 0x9F ∷ 0x98 ∷ 0x80 ∷ 0xFF ∷ 0xE2 ∷ 0x82 ∷ 0x41 ∷ [])
    ≡ 0xE9 ∷ 0x20AC ∷ 0x1F600 ∷ 0xFFFD ∷ 0xFFFD ∷ 0x41 ∷ []
unfolding from_utf8_lossy
decodes_multibyte = refl
