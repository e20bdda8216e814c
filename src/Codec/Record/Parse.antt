-- ===== src/Codec/Record/Parse.antt =====
-- `parse` on arbitrary bytes: it reads none out of bounds and splits its buffer.
use streamstack.Prelude.{
  not_negative, ◌∙◌, ℕ, ◌+◌, ◌-◌, ◌≤◌, ℤ, pos, ◌≡◌, refl, ◌++◌, arith, length, [], ◌∷◌, ap, true,
  false, take, drop, ltb, ltb_ℤ, ◌==◌, not, int_as_u64, Bool, if◌then◌else◌, zero, suc,
}
use streamstack.Codec.Wire.{Bytes, Decoded, ok, err, panicked, ◌>>=◌, read_i32, be_u32, of_i32_bits}
use streamstack.Codec.Record.{
  StreamRecordBatch, parse, first_byte, header_size, payload_length_pos, magic_v0,
}

length-drop : (n : ℕ) (buf : Bytes) → length (drop n buf) ≡ length buf - n
length-drop zero buf = omega arith
length-drop (suc n) [] = omega arith
length-drop (suc n) (b ∷ buf) = omega (arith, length-drop n buf)

take-drop : (n : ℕ) (buf : Bytes) → take n buf ++ drop n buf ≡ buf
take-drop zero buf = refl
take-drop (suc n) [] = refl
take-drop (suc n) (b ∷ buf) = ap (λ l. b ∷ l) (take-drop n buf)

length-take : (n : ℕ) (buf : Bytes) → n ≤ length buf → length (take n buf) ≡ n
length-take zero buf h = refl
length-take (suc n) [] h = omega arith
length-take (suc n) (b ∷ buf) h = omega (arith, length-take n buf (omega arith))

be_u32_total : (buf : Bytes) → 4 ≤ length buf → (n : ℕ) × be_u32 buf ≡ ok n
be_u32_total [] h = absurd (omega arith)
be_u32_total (a ∷ []) h = absurd (omega arith)
be_u32_total (a ∷ b ∷ []) h = absurd (omega arith)
be_u32_total (a ∷ b ∷ c ∷ []) h = absurd (omega arith)
be_u32_total (a ∷ b ∷ c ∷ d ∷ rest) h = (_, refl)

read_i32_total : (buf : Bytes) (at : ℕ) → at + 4 ≤ length buf → (z : ℤ) × read_i32 buf at ≡ ok z
read_i32_total buf at h =
    let (n, p) = be_u32_total (drop at buf) (omega (arith, length-drop at buf)) in
    (of_i32_bits n, ap (λ r. r >>= λ bits. ok (of_i32_bits bits)) p)

first_byte_total : (buf : Bytes) → 1 ≤ length buf → (b : ℕ) × first_byte buf ≡ ok b
first_byte_total [] h = absurd (omega arith)
first_byte_total (b ∷ buf) h = (b, refl)

-- What `parse` may answer to a buffer.
abbrev pub Parsed : Bytes → Decoded (StreamRecordBatch × Bytes) → Type 0
Parsed buf (ok (b, rest)) =
    (b.encoded ++ rest ≡ buf)
    × ((n : ℕ) × (read_i32 buf payload_length_pos ≡ ok (pos n))
        × (length b.encoded ≡ header_size + n))
Parsed buf (err e) = Unit {0}
Parsed buf panicked = ⊥

split_if :
    (buf : Bytes) (b : Bool) (x y : Decoded (StreamRecordBatch × Bytes))
    → (b ≡ true → Parsed buf x)
    → (b ≡ false → Parsed buf y)
    → Parsed buf (if b then x else y)
split_if buf true x y h k = h refl
split_if buf false x y h k = k refl

-- On any buffer `parse` does not read out of bounds, and where it returns a batch, the batch
-- and the remaining bytes make up the buffer, and the batch is as long as its header and the
-- payload length that the buffer states.
pub parse-Parsed : (buf : Bytes) → Parsed buf (parse buf)
unfolding parse
parse-Parsed buf =
    split_if buf (ltb (length buf) header_size) _ _ (λ _. tt)
      (λ long.
        let (magic, m) = first_byte_total buf (ground arith) in
        let (z, l) = read_i32_total buf payload_length_pos (ground arith) in
        rw m (
          split_if buf (not (magic == magic_v0)) _ _ (λ _. tt)
            (λ right. rw l (
              split_if buf (ltb_ℤ z (pos 0)) _ _ (λ _. tt)
                (λ positive.
                  split_if buf (ltb (length buf) (header_size + int_as_u64 z)) _ _ (λ _. tt)
                    (λ enough. (
                      take-drop (header_size + int_as_u64 z) buf,
                      (
                        int_as_u64 z,
                        l ∙ ap ok (not_negative z positive),
                        length-take (header_size + int_as_u64 z) buf (ground arith),
                      ),
                    )))))))
