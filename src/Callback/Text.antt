-- ===== src/Callback/Text.antt =====
-- `storableText` of internal/service/merchant_callback_service.go, on the bytes of a text.
use pg_aggregator_back.Common.{
  ℕ, zero, suc, Bool, not, ◌/◌, List, [], ◌∷◌, leb, length, take, filter, ◌==◌, if◌then◌else◌,
}

-- `utf8.RuneStart`: not of the form 10xxxxxx.
abbrev pub rune_start : ℕ → Bool
rune_start b = not (b / 64 == 2)

-- `s[i]`; past the end, which the code does not read, 0.
abbrev pub byte : List ℕ → ℕ → ℕ
byte [] i = 0
byte (b ∷ bs) zero = b
byte (b ∷ bs) (suc i) = byte bs i

-- The loop that moves the cut back to the start of a character.
unfoldable pub cut_at : List ℕ → ℕ → ℕ
cut_at s zero = zero
cut_at s (suc n) = let back = cut_at s n in if rune_start (byte s (suc n)) then suc n else back

-- Without the NUL bytes.
abbrev pub without_nul : List ℕ → List ℕ
without_nul s = filter (λ b. not (b == 0)) s

abbrev pub cut_to : List ℕ → ℕ → List ℕ
cut_to s max_bytes = if leb (length s) max_bytes then s else take (cut_at s max_bytes) s

-- `storableText`, with strings.ToValidUTF8 that drops what is not UTF-8 as a parameter.
unfoldable pub storable_text : (List ℕ → List ℕ) → List ℕ → ℕ → List ℕ
unfolding cut_at
storable_text to_valid_utf8 s max_bytes = cut_to (without_nul (to_valid_utf8 s)) max_bytes
