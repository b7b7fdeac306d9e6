-- ===== src/Tokenizer/Spelling.antt =====
-- What the tokens of src/tokenizer.cpp spell.
pub mod Segment
pub mod Text
use branchscore.Base.{
  ℕ, ◌%◌, ◌^◌, ◌<◌, ◌≡◌, refl, sym, none, some, List, [], ◌∷◌, ◌++◌, append_assoc, Bytes,
}
use branchscore.Decision.{TokenId}
use branchscore.Result.{Exception, runtime_error}
use branchscore.Tokenizer.Vocabulary.{Impl, find_token, byte_piece}

-- Tokens without special ones, and the escaped text that they stand for: a token stands for its
-- piece, or for the byte that its piece names.
pub data Spells (impl : Impl) : Bytes → List TokenId → Type 0 where
  nothing : Spells impl [] []
  whole :
      (piece text : Bytes) (id : TokenId) (ids : List TokenId)
      → find_token impl piece ≡ some id
      → Spells impl text ids
      → Spells impl (piece ++ text) (id ∷ ids)
  single :
      (byte : ℕ) (text : Bytes) (id : TokenId) (ids : List TokenId)
      → find_token impl (byte_piece (byte % 2 ^ 8)) ≡ some id
      → Spells impl text ids
      → Spells impl (byte ∷ text) (id ∷ ids)

-- The one way to fail: a byte without a piece of its own
pub data LacksByte (impl : Impl) : Exception → Type 0 where
  lacks :
      (byte : ℕ)
      → byte < 2 ^ 8
      → find_token impl (byte_piece byte) ≡ none
      → LacksByte impl runtime_error

pub Spells-append :
    {impl : Impl} {s t : Bytes} {is js : List TokenId}
    → Spells impl s is
    → Spells impl t js
    → Spells impl (s ++ t) (is ++ js)
Spells-append nothing q = q
Spells-append {t = t} {js = js} (whole piece s id is e p) q =
    rw (append_assoc piece s t) (whole piece (s ++ t) id (is ++ js) e (Spells-append p q))
Spells-append {t = t} {js = js} (single byte s id is e p) q =
    single byte (s ++ t) id (is ++ js) e (Spells-append p q)
