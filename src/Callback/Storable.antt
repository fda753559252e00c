-- ===== src/Callback/Storable.antt =====
-- What `storableText` keeps of a text.
use pg_aggregator_back.Common.{
  ℕ, zero, suc, true, false, ◌≤◌, List, [], ◌∷◌, ◌≡◌, refl, sym, ◌⊎◌, arith, leb, length, take,
  elem, Bool-cases, inl, inr,
}
use pg_aggregator_back.Callback.Text.{rune_start, byte, cut_at, without_nul, cut_to, storable_text}

cut_at-le : (s : List ℕ) (n : ℕ) → cut_at s n ≤ n
unfolding cut_at
cut_at-le s zero = omega arith
cut_at-le s (suc n) =
    let rest = cut_at-le s n in
    elim (Bool-cases (rune_start (byte s (suc n)))) [
      | inl t ↦ rw (t) omega arith
      | inr f ↦ rw (f) omega arith
    ]

cut_at-rune_start :
    (s : List ℕ) (n : ℕ) → (cut_at s n ≡ 0) ⊎ (rune_start (byte s (cut_at s n)) ≡ true)
unfolding cut_at
cut_at-rune_start s zero = inl refl
cut_at-rune_start s (suc n) = elim (Bool-cases (rune_start (byte s (suc n)))) [
  | inl t ↦ rw (t) (inr t)
  | inr f ↦ rw (f) (cut_at-rune_start s n)
]

length-take : (n : ℕ) (s : List ℕ) → n ≤ length s → length (take n s) ≡ n
length-take zero s h = refl
length-take (suc n) [] h = absurd (omega arith)
length-take (suc n) (b ∷ bs) h = rw (length-take n bs (omega arith)) refl

take_self : (s : List ℕ) → take (length s) s ≡ s
take_self [] = refl
take_self (b ∷ bs) = rw (take_self bs) refl

filter-clean : (s : List ℕ) → elem 0 (without_nul s) ≡ false
filter-clean [] = refl
filter-clean (b ∷ bs) = ground (arith, filter-clean bs)

take-clean : (n : ℕ) (s : List ℕ) → elem 0 s ≡ false → elem 0 (take n s) ≡ false
take-clean zero s h = refl
take-clean (suc n) [] h = refl
take-clean (suc n) (b ∷ bs) h = ground (arith, take-clean n bs)

-- The kept text `u` of the text `t`.
abbrev Kept : ℕ → List ℕ → List ℕ → Type 0
Kept max_bytes t u =
    (length u ≤ max_bytes)
    × (elem 0 u ≡ false)
    × (u ≡ take (length u) t)
    × ((u ≡ t) ⊎ ((length u ≡ 0) ⊎ (rune_start (byte t (length u)) ≡ true)))

cut_to-Kept :
    (t : List ℕ) (max_bytes : ℕ) → elem 0 t ≡ false → Kept max_bytes t (cut_to t max_bytes)
cut_to-Kept t max_bytes clean = elim (Bool-cases (leb (length t) max_bytes)) [
  | inl short ↦ rw (short) (ground arith, clean, sym (take_self t), inl refl)
  | inr long ↦
      let n = cut_at t max_bytes in
      let n_le : n ≤ max_bytes = cut_at-le t max_bytes in
      let same : length (take n t) ≡ n = length-take n t (ground arith) in
      rw (long) (
        rw (same) n_le,
        take-clean n t clean,
        rw (same) refl,
        inr (rw (same) (cut_at-rune_start t max_bytes)),
      )
]

-- Whatever strings.ToValidUTF8 leaves of the text, what is stored is a beginning of it without its
-- NUL bytes, has at most `max_bytes` bytes and no NUL byte, and is all of it or nothing of it or
-- ends before the first byte of a character.
pub storable_text-Kept :
    (to_valid_utf8 : List ℕ → List ℕ) (s : List ℕ) (max_bytes : ℕ)
    → (length (storable_text to_valid_utf8 s max_bytes) ≤ max_bytes)
      × (elem 0 (storable_text to_valid_utf8 s max_bytes) ≡ false)
      × (storable_text to_valid_utf8 s max_bytes
          ≡ take (length (storable_text to_valid_utf8 s max_bytes)) (without_nul (to_valid_utf8 s)))
      × ((storable_text to_valid_utf8 s max_bytes ≡ without_nul (to_valid_utf8 s))
          ⊎ ((length (storable_text to_valid_utf8 s max_bytes) ≡ 0)
              ⊎ (rune_start (
                    byte
                      (without_nul (to_valid_utf8 s))
                      (length (storable_text to_valid_utf8 s max_bytes)))
                  ≡ true)))
unfolding storable_text
storable_text-Kept to_valid_utf8 s max_bytes =
    cut_to-Kept (without_nul (to_valid_utf8 s)) max_bytes (filter-clean (to_valid_utf8 s))
