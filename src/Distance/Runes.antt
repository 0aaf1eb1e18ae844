-- ===== src/Distance/Runes.antt =====
-- The conversion `[]rune(s)`: UTF-8 decoding as the Go language defines it, where each byte that
-- does not begin a well-formed sequence becomes the replacement character.
use go_bpfman.Prelude.{
  ℕ, zero, suc, ◌+◌, ◌-◌, ◌*◌, ◌<◌, ◌≡◌, refl, ap, Text, Bool, ◌&&◌, List, [], ◌∷◌, ◌==◌, leb, ltb,
  if◌then◌else◌, All, lt→ltb,
}

within : ℕ → ℕ → ℕ → Bool
within lo hi b = leb lo b && leb b hi

tail_byte : ℕ → Bool
unfolding within
tail_byte = within 0x80 0xbf

-- The bytes that may follow a first byte.
second_byte : ℕ → ℕ → Bool
unfolding within
second_byte first b =
    if first == 0xe0
    then within 0xa0 0xbf b
    else if first == 0xed
    then within 0x80 0x9f b
    else if first == 0xf0
    then within 0x90 0xbf b
    else if first == 0xf4
    then within 0x80 0x8f b
    else within 0x80 0xbf b

-- A rune, and how many bytes it takes after its first.
abbrev Decoded : Type 0
Decoded = ℕ × ℕ

bad : Decoded
bad = (0xfffd, 0)

two_bytes : ℕ → Text → Decoded
unfolding bad second_byte
two_bytes b [] = bad
two_bytes b (c ∷ s) = if second_byte b c then ((b - 0xc0) * 64 + (c - 0x80), 1) else bad

three_bytes : ℕ → Text → Decoded
unfolding bad second_byte tail_byte
three_bytes b [] = bad
three_bytes b (c ∷ []) = bad
three_bytes b (c ∷ d ∷ s) =
    if second_byte b c && tail_byte d
    then ((b - 0xe0) * 4096 + (c - 0x80) * 64 + (d - 0x80), 2)
    else bad

four_bytes : ℕ → Text → Decoded
unfolding bad second_byte tail_byte
four_bytes b [] = bad
four_bytes b (c ∷ []) = bad
four_bytes b (c ∷ d ∷ []) = bad
four_bytes b (c ∷ d ∷ e ∷ s) =
    if second_byte b c && tail_byte d && tail_byte e
    then ((b - 0xf0) * 262144 + (c - 0x80) * 4096 + (d - 0x80) * 64 + (e - 0x80), 3)
    else bad

decode_rune : ℕ → Text → Decoded
unfolding within two_bytes three_bytes four_bytes bad
decode_rune b s =
    if ltb b 0x80
    then (b, 0)
    else if within 0xc2 0xdf b
    then two_bytes b s
    else if within 0xe0 0xef b
    then three_bytes b s
    else if within 0xf0 0xf4 b
    then four_bytes b s
    else bad

-- The first argument counts the bytes that belong to the rune before.
runes_after : ℕ → Text → List ℕ
unfolding decode_rune
runes_after skip [] = []
runes_after (suc skip) (b ∷ s) = runes_after skip s
runes_after zero (b ∷ s) = let (r, more) = decode_rune b s in r ∷ runes_after more s

unfoldable pub runes : Text → List ℕ
unfolding runes_after
runes = runes_after 0

-- An ASCII string is its own list of runes.
pub runes_ascii : (s : Text) → All (λ b. b < 0x80) s → runes s ≡ s
unfolding runes
runes_ascii [] h = refl
runes_ascii (b ∷ s) h = rw (lt→ltb b 0x80 h.0) (ap (λ t. b ∷ t) (runes_ascii s h.1))

-- é, € and an emoji, and a stray byte among them.
runes_multibyte :
    runes (0xc3 ∷ 0xa9 ∷ 0xe2 ∷ 0x82 ∷ 0xac ∷ 0x80 ∷ 0xf0 ∷ 0x9f ∷ 0x98 ∷ 0x80 ∷ [])
    ≡ 0xe9 ∷ 0x20ac ∷ 0xfffd ∷ 0x1f600 ∷ []
unfolding runes
runes_multibyte = refl
