-- ===== src/Json/Printer.antt =====
-- `json::stringify`: `append_value` and `append_escaped` add to the output.
use branchscore.Base.{
  ℕ, ◌+◌, ◌-◌, ◌/◌, ◌%◌, Bool, true, false, [], ◌∷◌, ◌++◌, Bytes, codes, ltb, ◌==◌, if◌then◌else◌,
}
use branchscore.Double.{is_finite, Libc}
use branchscore.Json.Value.{
  Value, Items, Fields, null_value, boolean, number, string, array, object, no_items, item,
  no_fields, field,
}
use branchscore.Result.{Result, ok, throw, runtime_error, ◌>>=◌}

-- A digit of `std::hex`.
unfoldable pub hex : ℕ → ℕ
hex d = if ltb d 10 then b'0' + d else b'a' + d - 10

-- What `append_escaped` adds for one byte.
unfoldable pub escape_byte : ℕ → Bytes
escape_byte c =
    if c == b'"'
    then b'\\' ∷ b'"' ∷ []
    else if c == b'\\'
    then b'\\' ∷ b'\\' ∷ []
    else if c == 8
    then b'\\' ∷ b'b' ∷ []
    else if c == 12
    then b'\\' ∷ b'f' ∷ []
    else if c == b'\n'
    then b'\\' ∷ b'n' ∷ []
    else if c == b'\r'
    then b'\\' ∷ b'r' ∷ []
    else if c == b'\t'
    then b'\\' ∷ b't' ∷ []
    else if ltb c 0x20
    then b'\\' ∷ b'u' ∷ b'0' ∷ b'0' ∷ hex (c / 16) ∷ hex (c % 16) ∷ []
    else c ∷ []

unfoldable pub escape_bytes : Bytes → Bytes
escape_bytes [] = []
escape_bytes (c ∷ cs) = escape_byte c ++ escape_bytes cs

unfoldable pub append_escaped : Bytes → Bytes → Bytes
unfolding escape_bytes escape_byte hex
append_escaped output value = output ++ (b'"' ∷ (escape_bytes value ++ (b'"' ∷ [])))

-- `if (!first) output.push_back(',');`
abbrev pub separate : Bytes → Bool → Bytes
separate output first = if first then output else output ++ b',' ∷ []

module _ (libc : Libc) where
  unfoldable mutual
    pub append_value : Bytes → Value → Result Bytes
    append_value output null_value = ok (output ++ codes "null")
    append_value output (boolean b) = ok (output ++ (if b then codes "true" else codes "false"))
    append_value output (number d) =
        if is_finite d then ok (output ++ libc.print_double d) else throw runtime_error
    append_value output (string s) = ok (append_escaped output s)
    append_value output (array xs) = do
      out ← append_items (output ++ b'[' ∷ []) true xs
      ok (out ++ b']' ∷ [])
    append_value output (object fs) = do
      out ← append_fields (output ++ b'{' ∷ []) true fs
      ok (out ++ b'}' ∷ [])

    pub append_items : Bytes → Bool → Items → Result Bytes
    append_items output first no_items = ok output
    append_items output first (item v xs) = do
      out ← append_value (separate output first) v
      append_items out false xs

    pub append_fields : Bytes → Bool → Fields → Result Bytes
    append_fields output first no_fields = ok output
    append_fields output first (field k v fs) = do
      out ← append_value (append_escaped (separate output first) k ++ b':' ∷ []) v
      append_fields out false fs

  unfoldable pub stringify : Value → Result Bytes
  unfolding append_value
  stringify v = append_value [] v
