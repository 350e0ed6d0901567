-- ===== src/Xtask/Encode/Percent.antt =====
-- tooling/xtask/src/discovery.rs: a percent-encoded text is read back by percent-decoding.
use rust_v.Prelude.{
  ℕ, ◌+◌, ◌-◌, ◌*◌, ◌/◌, ◌%◌, ◌<◌, ◌≡◌, refl, inl, inr, ap, true, false, List, [], ◌∷◌, All, arith,
  ltb, ◌==◌, if◌then◌else◌, Bool-cases,
}
use rust_v.Xtask.Encode.{is_unreserved, hex_digit, percent_encode}

abbrev pub digit_value : ℕ → ℕ
digit_value d = if ltb d b'A' then d - b'0' else d - b'A' + 10

-- Decoding as the URL standard says it: a percent sign and two digits stand for a byte.
unfoldable pub percent_decode : List ℕ → List ℕ
percent_decode [] = []
percent_decode (c ∷ []) = c ∷ []
percent_decode (c ∷ d ∷ []) = c ∷ d ∷ []
percent_decode (c ∷ d ∷ e ∷ rest) =
    let taken = (digit_value d * 16 + digit_value e) ∷ percent_decode rest in
    let kept = c ∷ percent_decode (d ∷ e ∷ rest) in if c == b'%' then taken else kept

hex_digit_value : (n : ℕ) → n < 16 → digit_value (hex_digit n) ≡ n
unfolding hex_digit
hex_digit_value n h = ground arith

unreserved_plain : (b : ℕ) → is_unreserved b ≡ true → (b == b'%') ≡ false
unfolding is_unreserved
unreserved_plain b h = ground arith

decode-plain :
    (b : ℕ) (l : List ℕ) → (b == b'%') ≡ false → percent_decode (b ∷ l) ≡ b ∷ percent_decode l
unfolding percent_decode
decode-plain b [] h = refl
decode-plain b (c ∷ []) h = refl
decode-plain b (c ∷ d ∷ rest) h = rw h

decode-escape :
    (d e : ℕ) (l : List ℕ)
    → percent_decode (b'%' ∷ d ∷ e ∷ l) ≡ (digit_value d * 16 + digit_value e) ∷ percent_decode l
unfolding percent_decode
decode-escape d e l = refl

byte_of_digits :
    (b : ℕ) → b < 256 → digit_value (hex_digit (b / 16)) * 16 + digit_value (hex_digit (b % 16)) ≡ b
byte_of_digits b h =
    omega (arith, hex_digit_value (b / 16) (omega arith), hex_digit_value (b % 16) (omega arith))

-- Decoding what `percent_encode` makes of any bytes gives the bytes back.
percent_decode-percent_encode :
    (bs : List ℕ) → All (λ b. b < 256) bs → percent_decode (percent_encode bs) ≡ bs
unfolding percent_encode
percent_decode-percent_encode [] h = unfold percent_decode in refl
percent_decode-percent_encode (b ∷ bs) (small, h) = elim (Bool-cases (is_unreserved b)) [
  | inl plain ↦ rw plain (
      rw (decode-plain b (percent_encode bs) (unreserved_plain b plain))
        (ap (λ (l : List ℕ). b ∷ l) (percent_decode-percent_encode bs h)))
  | inr other ↦ rw other (
      rw
        (
          decode-escape (hex_digit (b / 16)) (hex_digit (b % 16)) (percent_encode bs),
          byte_of_digits b small,
        )
        (ap (λ (l : List ℕ). b ∷ l) (percent_decode-percent_encode bs h)))
]
