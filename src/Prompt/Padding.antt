-- ===== src/Prompt/Padding.antt =====
-- The hash of src/gemma4_prompt_renderer.cpp pads as FIPS 180-4 says.
use branchscore.Base.{
  ℕ, zero, suc, ◌+◌, ◌-◌, ◌*◌, ◌%◌, ◌^◌, ◌≤◌, ◌<◌, ◌≡◌, refl, ap, ◌∙◌, true, false, [], ◌∷◌, ◌++◌,
  append_assoc, Bytes, ltb, length, length-append, arith, ltb→lt, Bool-cases, inl, inr,
}
use branchscore.Prompt.Sha256.{
  Sha256, initial, transform, push, push_all, update, zeros, count_bytes, fill, finalize,
}

-- The padding of FIPS 180-4 behind a message of which `n` bytes stand in the last block: the byte
-- 0x80, as few zeros as fill a block, and the length in bits.
abbrev pub padding : ℕ → ℕ → Bytes
padding n bits = 0x80 ∷ zeros ((119 - n) % 64) ++ count_bytes bits

length-zeros : (n : ℕ) → length (zeros n) ≡ n
length-zeros zero = refl
length-zeros (suc n) = omega (arith, length-zeros n)

-- The buffer holds what is behind the last whole block.
push-length :
    (hash : Sha256) (byte : ℕ)
    → length hash.buffer < 64
    → length (push hash byte).buffer ≡ (length hash.buffer + 1) % 64
unfolding push transform
push-length hash byte h = ground (arith, length-append hash.buffer (byte ∷ []))

push_all-length :
    (hash : Sha256) (bytes : Bytes)
    → length hash.buffer < 64
    → length (push_all hash bytes).buffer ≡ (length hash.buffer + length bytes) % 64
unfolding push_all
push_all-length hash [] h = omega arith
push_all-length hash (byte ∷ bytes) h =
    let first = push-length hash byte h in
    omega (arith, first, push_all-length (push hash byte) bytes (omega (arith, first)))

push-bit_count : (hash : Sha256) (byte : ℕ) → (push hash byte).bit_count ≡ hash.bit_count
unfolding push transform
push-bit_count hash byte = ground arith

push_all-bit_count :
    (hash : Sha256) (bytes : Bytes) → (push_all hash bytes).bit_count ≡ hash.bit_count
unfolding push_all
push_all-bit_count hash [] = refl
push_all-bit_count hash (byte ∷ bytes) =
    push_all-bit_count (push hash byte) bytes ∙ push-bit_count hash byte

abbrev extend : Sha256 → Bytes → Sha256
extend hash bytes = record hash { buffer = hash.buffer ++ bytes }

push-fits :
    (hash : Sha256) (byte : ℕ) → length hash.buffer < 63 → push hash byte ≡ extend hash (byte ∷ [])
unfolding push
push-fits hash byte h = ground (arith, length-append hash.buffer (byte ∷ []))

push-fills :
    (hash : Sha256) (byte : ℕ)
    → length hash.buffer ≡ 63
    → push hash byte ≡ transform (extend hash (byte ∷ []))
unfolding push
push-fills hash byte h = ground (arith, length-append hash.buffer (byte ∷ []))

extend-extend :
    (hash : Sha256) (xs ys : Bytes) → extend (extend hash xs) ys ≡ extend hash (xs ++ ys)
extend-extend hash xs ys = ap (λ b. record hash { buffer = b }) (append_assoc hash.buffer xs ys)

-- Bytes that fill the block are transformed.
push_all-fills :
    (hash : Sha256) (byte : ℕ) (bytes : Bytes)
    → length hash.buffer + length bytes ≡ 63
    → push_all hash (byte ∷ bytes) ≡ transform (extend hash (byte ∷ bytes))
unfolding push_all
push_all-fills hash byte [] h = push-fills hash byte (omega (arith, h))
push_all-fills hash byte (next ∷ bytes) h =
    let stored = push-fits hash byte (omega (arith, h)) in
    let short : length (extend hash (byte ∷ [])).buffer + length bytes ≡ 63 =
      omega (arith, h, length-append hash.buffer (byte ∷ [])) in
    ap (λ s. push_all s (next ∷ bytes)) stored
    ∙ push_all-fills (extend hash (byte ∷ [])) next bytes short
    ∙ ap transform (extend-extend hash (byte ∷ []) (next ∷ bytes))

push_all-append :
    (hash : Sha256) (xs ys : Bytes) → push_all hash (xs ++ ys) ≡ push_all (push_all hash xs) ys
unfolding push_all
push_all-append hash [] ys = refl
push_all-append hash (x ∷ xs) ys = push_all-append (push hash x) xs ys

zeros-append : (m n : ℕ) → zeros (m + n) ≡ zeros m ++ zeros n
zeros-append zero n = ap zeros (zero_add n)
  where
    zero_add : (n : ℕ) → 0 + n ≡ n
    zero_add n = omega arith
zeros-append (suc m) n = ap zeros (suc_add m n) ∙ ap (λ t. 0 ∷ t) (zeros-append m n)
  where
    suc_add : (m n : ℕ) → suc m + n ≡ suc (m + n)
    suc_add m n = omega arith

-- One block is left: the message ends in it before byte 56.
finalize-short :
    (hash : Sha256)
    → length hash.buffer ≤ 55
    → finalize hash ≡ (push_all hash (padding (length hash.buffer) hash.bit_count)).state
unfolding finalize fill transform push_all
finalize-short hash h =
    let n : ℕ = length hash.buffer in
    let k : ℕ = (119 - n) % 64 in
    let ended = length-append hash.buffer (0x80 ∷ []) in
    let count : Bytes = count_bytes hash.bit_count in
    let one_block : ltb 56 (length (hash.buffer ++ 0x80 ∷ [])) ≡ false = ground (arith, ended) in
    let room : 56 - length (hash.buffer ++ 0x80 ∷ []) ≡ k = omega (arith, ended) in
    let full : length hash.buffer + length (zeros k ++ count) ≡ 63 =
      omega (arith, length-append (zeros k) count, length-zeros k) in
    rw
      (
        one_block,
        room,
        append_assoc hash.buffer (0x80 ∷ []) (zeros k),
        append_assoc hash.buffer (0x80 ∷ zeros k) count,
        push_all-fills hash 0x80 (zeros k ++ count) full,
      )
      refl

finalize-long :
    (hash : Sha256)
    → 56 ≤ length hash.buffer
    → length hash.buffer ≤ 63
    → finalize hash ≡ (push_all hash (padding (length hash.buffer) hash.bit_count)).state
unfolding finalize fill transform
finalize-long hash h le =
    let n : ℕ = length hash.buffer in
    let m : ℕ = 63 - n in
    let ended = length-append hash.buffer (0x80 ∷ []) in
    let count : Bytes = count_bytes hash.bit_count in
    let two_blocks : ltb 56 (length (hash.buffer ++ 0x80 ∷ [])) ≡ true = ground (arith, ended) in
    let room : 64 - length (hash.buffer ++ 0x80 ∷ []) ≡ m = omega (arith, ended) in
    let split : (119 - n) % 64 ≡ m + 56 = omega arith in
    let first : Sha256 = transform (extend hash (0x80 ∷ zeros m)) in
    rw
      (
        two_blocks,
        room,
        append_assoc hash.buffer (0x80 ∷ []) (zeros m),
        split,
        zeros-append m 56,
        append_assoc (zeros m) (zeros 56) count,
        push_all-append hash (0x80 ∷ zeros m) (zeros 56 ++ count),
        push_all-fills hash 0x80 (zeros m) (omega (arith, length-zeros m)),
        push_all-fills first 0 (zeros 55 ++ count) (omega arith),
      )
      refl

finalize-push_all :
    (hash : Sha256)
    → length hash.buffer < 64
    → finalize hash ≡ (push_all hash (padding (length hash.buffer) hash.bit_count)).state
finalize-push_all hash h = elim (Bool-cases (ltb 55 (length hash.buffer))) [
  | inl long ↦ finalize-long hash (omega (arith, ltb→lt 55 (length hash.buffer) long)) (omega arith)
  | inr short ↦ finalize-short hash (ground arith)
]

-- The loop does not read the count of bits.
push-blind :
    (hash : Sha256) (n byte : ℕ)
    → push (record hash { bit_count = n }) byte ≡ record (push hash byte) { bit_count = n }
unfolding push transform
push-blind hash n byte = ground arith

push_all-blind :
    (hash : Sha256) (n : ℕ) (bytes : Bytes)
    → push_all (record hash { bit_count = n }) bytes
      ≡ record (push_all hash bytes) { bit_count = n }
unfolding push_all
push_all-blind hash n [] = refl
push_all-blind hash n (byte ∷ bytes) =
    ap (λ s. push_all s bytes) (push-blind hash n byte) ∙ push_all-blind (push hash byte) n bytes

-- The words behind `update` of a message and `finish` are those behind feeding the message with the
-- padding of FIPS 180-4 to the loop that compresses whole blocks: the byte 0x80, zeros up to 8 bytes
-- short of a block, and the length of the message in bits, modulo 2 ^ 64.
pub finalize-update :
    (message : Bytes)
    → finalize (update initial message)
      ≡ (push_all initial
          (message ++ padding (length message % 64) (length message * 8 % 2 ^ 64))).state
unfolding update
finalize-update message =
    let n : ℕ = length message * 8 % 2 ^ 64 in
    let count : ((push_all initial message).bit_count + length message * 8) % 2 ^ 64 ≡ n =
      omega (arith, push_all-bit_count initial message) in
    let rest : length (push_all initial message).buffer ≡ length message % 64 =
      omega (arith, push_all-length initial message (omega arith)) in
    let pad : Bytes = padding (length message % 64) n in
    rw
      (
        finalize-push_all (update initial message) (omega (arith, rest)),
        count,
        rest,
        push_all-blind (push_all initial message) n pad,
        push_all-append initial message pad,
      )
      refl
