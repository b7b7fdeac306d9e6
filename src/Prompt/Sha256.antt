-- ===== src/Prompt/Sha256.antt =====
-- The class `Sha256` of src/gemma4_prompt_renderer.cpp.
use Prim.Native.Nat.{bit_and, bit_or, bit_xor}
use branchscore.Base.{
  ℕ, zero, suc, ◌+◌, ◌-◌, ◌*◌, ◌/◌, ◌%◌, ◌^◌, none, some, List, [], ◌∷◌, ◌++◌, Bytes, ltb, ◌==◌,
  if◌then◌else◌, length, get_elem?,
}

-- The eight words of `state_`.
pub record Words : Type 0 where
  pub a : ℕ
  pub b : ℕ
  pub c : ℕ
  pub d : ℕ
  pub e : ℕ
  pub f : ℕ
  pub g : ℕ
  pub h : ℕ

-- `buffer` holds the first `buffer_size_` bytes of `buffer_`.
pub record Sha256 : Type 0 where
  pub state : Words
  pub buffer : Bytes
  pub bit_count : ℕ

abbrev pub initial : Sha256
initial = record {
  state = record {
    a = 0x6a09e667;
    b = 0xbb67ae85;
    c = 0x3c6ef372;
    d = 0xa54ff53a;
    e = 0x510e527f;
    f = 0x9b05688c;
    g = 0x1f83d9ab;
    h = 0x5be0cd19;
  };
  buffer = [];
  bit_count = 0;
}

abbrev pub constants : List ℕ
constants =
    0x428a2f98 ∷ 0x71374491 ∷ 0xb5c0fbcf ∷ 0xe9b5dba5 ∷ 0x3956c25b ∷ 0x59f111f1 ∷ 0x923f82a4
    ∷ 0xab1c5ed5 ∷ 0xd807aa98 ∷ 0x12835b01 ∷ 0x243185be ∷ 0x550c7dc3 ∷ 0x72be5d74 ∷ 0x80deb1fe
    ∷ 0x9bdc06a7 ∷ 0xc19bf174 ∷ 0xe49b69c1 ∷ 0xefbe4786 ∷ 0x0fc19dc6 ∷ 0x240ca1cc ∷ 0x2de92c6f
    ∷ 0x4a7484aa ∷ 0x5cb0a9dc ∷ 0x76f988da ∷ 0x983e5152 ∷ 0xa831c66d ∷ 0xb00327c8 ∷ 0xbf597fc7
    ∷ 0xc6e00bf3 ∷ 0xd5a79147 ∷ 0x06ca6351 ∷ 0x14292967 ∷ 0x27b70a85 ∷ 0x2e1b2138 ∷ 0x4d2c6dfc
    ∷ 0x53380d13 ∷ 0x650a7354 ∷ 0x766a0abb ∷ 0x81c2c92e ∷ 0x92722c85 ∷ 0xa2bfe8a1 ∷ 0xa81a664b
    ∷ 0xc24b8b70 ∷ 0xc76c51a3 ∷ 0xd192e819 ∷ 0xd6990624 ∷ 0xf40e3585 ∷ 0x106aa070 ∷ 0x19a4c116
    ∷ 0x1e376c08 ∷ 0x2748774c ∷ 0x34b0bcb5 ∷ 0x391c0cb3 ∷ 0x4ed8aa4a ∷ 0x5b9cca4f ∷ 0x682e6ff3
    ∷ 0x748f82ee ∷ 0x78a5636f ∷ 0x84c87814 ∷ 0x8cc70208 ∷ 0x90befffa ∷ 0xa4506ceb ∷ 0xbef9a3f7
    ∷ 0xc67178f2 ∷ []

-- `std::uint32_t` wraps around.
abbrev pub wrap32 : ℕ → ℕ
wrap32 n = n % 2 ^ 32

unfoldable pub rotate_right : ℕ → ℕ → ℕ
rotate_right value count = bit_or (value / 2 ^ count) (wrap32 (value * 2 ^ (32 - count)))

-- The first loop of `transform`: the words of a block, most significant byte first.
unfoldable pub block_words : Bytes → List ℕ
block_words (w ∷ x ∷ y ∷ z ∷ rest) =
    bit_or (bit_or (bit_or (w * 2 ^ 24) (x * 2 ^ 16)) (y * 2 ^ 8)) z ∷ block_words rest
block_words _ = []

abbrev pub word_at : List ℕ → ℕ → ℕ
word_at words i = elim (get_elem? words i) [ none ↦ 0 | some w ↦ w ]

-- The next word, from those before it, the last first.
unfoldable pub next_word : List ℕ → ℕ
unfolding rotate_right
next_word latest =
    let w15 = word_at latest 14 in
    let w2 = word_at latest 1 in
    let s0 = bit_xor (bit_xor (rotate_right w15 7) (rotate_right w15 18)) (w15 / 2 ^ 3) in
    let s1 = bit_xor (bit_xor (rotate_right w2 17) (rotate_right w2 19)) (w2 / 2 ^ 10) in
    wrap32 (word_at latest 15 + s0 + word_at latest 6 + s1)

abbrev reverse_onto : List ℕ → List ℕ → List ℕ
reverse_onto [] acc = acc
reverse_onto (w ∷ ws) acc = reverse_onto ws (w ∷ acc)

-- The second loop: `count` more words.
unfoldable pub expand : ℕ → List ℕ → List ℕ
unfolding next_word
expand zero latest = latest
expand (suc count) latest = expand count (next_word latest ∷ latest)

-- The body of the third loop.
unfoldable pub round : ℕ → ℕ → Words → Words
unfolding rotate_right
round constant word s =
    let s1 = bit_xor (bit_xor (rotate_right s.e 6) (rotate_right s.e 11)) (rotate_right s.e 25) in
    let choose = bit_xor (bit_and s.e s.f) (bit_and (2 ^ 32 - 1 - s.e) s.g) in
    let temp1 = wrap32 (s.h + s1 + choose + constant + word) in
    let s0 = bit_xor (bit_xor (rotate_right s.a 2) (rotate_right s.a 13)) (rotate_right s.a 22) in
    let majority = bit_xor (bit_xor (bit_and s.a s.b) (bit_and s.a s.c)) (bit_and s.b s.c) in
    let temp2 = wrap32 (s0 + majority) in
    record {
      a = wrap32 (temp1 + temp2);
      b = s.a;
      c = s.b;
      d = s.c;
      e = wrap32 (s.d + temp1);
      f = s.e;
      g = s.f;
      h = s.g;
    }

unfoldable pub rounds : List ℕ → List ℕ → Words → Words
unfolding round
rounds (constant ∷ constants) (word ∷ words) s = rounds constants words (round constant word s)
rounds _ _ s = s

unfoldable pub compress : Words → Bytes → Words
unfolding block_words expand rounds
compress s block =
    let words = reverse_onto (expand 48 (reverse_onto (block_words block) [])) [] in
    let t = rounds constants words s in
    record {
      a = wrap32 (s.a + t.a);
      b = wrap32 (s.b + t.b);
      c = wrap32 (s.c + t.c);
      d = wrap32 (s.d + t.d);
      e = wrap32 (s.e + t.e);
      f = wrap32 (s.f + t.f);
      g = wrap32 (s.g + t.g);
      h = wrap32 (s.h + t.h);
    }

unfoldable pub transform : Sha256 → Sha256
transform hash = record hash { state = compress hash.state hash.buffer; buffer = [] }

-- The body of the loop of `update`.
unfoldable pub push : Sha256 → ℕ → Sha256
push hash byte =
    let stored : Sha256 = record hash { buffer = hash.buffer ++ byte ∷ [] } in
    if length stored.buffer == 64 then transform stored else stored

unfoldable pub push_all : Sha256 → Bytes → Sha256
push_all hash [] = hash
push_all hash (byte ∷ bytes) = push_all (push hash byte) bytes

unfoldable pub update : Sha256 → Bytes → Sha256
update hash input =
    let pushed = push_all hash input in
    record pushed { bit_count = (pushed.bit_count + length input * 8) % 2 ^ 64 }

abbrev pub zeros : ℕ → Bytes
zeros zero = []
zeros (suc n) = 0 ∷ zeros n

-- `static_cast<std::uint8_t>(bit_count_ >> shift)` for the shifts 56, 48, ..., 0
abbrev pub count_bytes : ℕ → Bytes
count_bytes n =
    n / 2 ^ 56 % 256
    ∷ n / 2 ^ 48 % 256
    ∷ n / 2 ^ 40 % 256
    ∷ n / 2 ^ 32 % 256
    ∷ n / 2 ^ 24 % 256
    ∷ n / 2 ^ 16 % 256
    ∷ n / 2 ^ 8 % 256
    ∷ n % 256
    ∷ []

-- `while (buffer_size_ < size) buffer_[buffer_size_++] = 0;`
unfoldable pub fill : ℕ → Sha256 → Sha256
fill size hash = record hash { buffer = hash.buffer ++ zeros (size - length hash.buffer) }

-- `finish`, up to the printing of the words.
unfoldable pub finalize : Sha256 → Words
finalize hash =
    let ended : Sha256 = record hash { buffer = hash.buffer ++ 0x80 ∷ [] } in
    let flushed = if ltb 56 (length ended.buffer) then transform (fill 64 ended) else ended in
    let padded = fill 56 flushed in
    (transform (record padded { buffer = padded.buffer ++ count_bytes padded.bit_count })).state

abbrev pub hex_digit : ℕ → ℕ
hex_digit d = if ltb d 10 then b'0' + d else b'a' + (d - 10)

-- `std::hex << std::setfill('0') << std::setw(8)`
abbrev pub hex_word : ℕ → Bytes
hex_word w =
    hex_digit (w / 2 ^ 28 % 16)
    ∷ hex_digit (w / 2 ^ 24 % 16)
    ∷ hex_digit (w / 2 ^ 20 % 16)
    ∷ hex_digit (w / 2 ^ 16 % 16)
    ∷ hex_digit (w / 2 ^ 12 % 16)
    ∷ hex_digit (w / 2 ^ 8 % 16)
    ∷ hex_digit (w / 2 ^ 4 % 16)
    ∷ hex_digit (w % 16)
    ∷ []

unfoldable pub finish : Sha256 → Bytes
finish hash =
    let s = finalize hash in
    hex_word s.a
    ++ hex_word s.b
    ++ hex_word s.c
    ++ hex_word s.d
    ++ hex_word s.e
    ++ hex_word s.f
    ++ hex_word s.g
    ++ hex_word s.h
