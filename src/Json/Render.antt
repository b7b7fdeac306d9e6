-- ===== src/Json/Render.antt =====
-- The text of a value, with any `rest` behind it, and `append_value` of src/json.cpp as the code that
-- appends it.
use branchscore.Base.{
  ℕ, ◌≡◌, ◌∙◌, refl, ap, sym, true, false, Bool, [], ◌∷◌, ◌++◌, append_assoc, append-nil, Bytes,
  codes, if◌then◌else◌,
}
use branchscore.Double.{Libc}
use branchscore.Json.Printer.{
  escape_bytes, append_escaped, separate, append_value, append_items, append_fields, stringify,
}
use branchscore.Json.Value.{
  Value, Items, Fields, null_value, boolean, number, string, array, object, no_items, item,
  no_fields, field,
}
use branchscore.Json.WellFormed.{IsWellFormed, WellFormedItems, WellFormedFields}
use branchscore.Result.{Result, ok, throw, out_of_fuel, ◌>>=◌}

abbrev pub quoted : Bytes → Bytes → Bytes
quoted s rest = b'"' ∷ (escape_bytes s ++ (b'"' ∷ rest))

module _ (libc : Libc) where
  abbrev mutual
    pub render : Value → Bytes → Bytes
    render null_value rest = codes "null" ++ rest
    render (boolean true) rest = codes "true" ++ rest
    render (boolean false) rest = codes "false" ++ rest
    render (number d) rest = libc.print_double d ++ rest
    render (string s) rest = quoted s rest
    render (array xs) rest = b'[' ∷ render_items xs rest
    render (object fs) rest = b'{' ∷ render_fields fs rest

    pub render_items : Items → Bytes → Bytes
    render_items no_items rest = b']' ∷ rest
    render_items (item v xs) rest = render v (more_items xs rest)

    -- Behind an item.
    pub more_items : Items → Bytes → Bytes
    more_items no_items rest = b']' ∷ rest
    more_items (item v xs) rest = b',' ∷ render v (more_items xs rest)

    pub render_fields : Fields → Bytes → Bytes
    render_fields no_fields rest = b'}' ∷ rest
    render_fields (field k v fs) rest = quoted k (b':' ∷ render v (more_fields fs rest))

    -- Behind a field.
    pub more_fields : Fields → Bytes → Bytes
    more_fields no_fields rest = b'}' ∷ rest
    more_fields (field k v fs) rest = b',' ∷ quoted k (b':' ∷ render v (more_fields fs rest))

-- A run that returns, with `P` of its value.
abbrev Returns : (Bytes → Type 0) → Result Bytes → Type 0
Returns P (ok a) = P a
Returns P (throw e) = ⊥
Returns P out_of_fuel = ⊥

Returns-bind :
    (P Q : Bytes → Type 0) (r : Result Bytes) (f : Bytes → Result Bytes)
    → Returns P r
    → ((a : Bytes) → P a → Returns Q (f a))
    → Returns Q (r >>= f)
Returns-bind P Q (ok a) f h k = k a h
Returns-bind P Q (throw e) f h k = h
Returns-bind P Q out_of_fuel f h k = h

Returns-mono :
    (P Q : Bytes → Type 0) (r : Result Bytes)
    → Returns P r
    → ((a : Bytes) → P a → Q a)
    → Returns Q r
Returns-mono P Q (ok a) h k = k a h
Returns-mono P Q (throw e) h k = h
Returns-mono P Q out_of_fuel h k = h

-- The output so far and `text`, whatever follows.
abbrev Adds : Bytes → (Bytes → Bytes) → Bytes → Type 0
Adds output text out = (rest : Bytes) → out ++ rest ≡ output ++ text rest

append_escaped-Adds : (output s : Bytes) → Adds output (quoted s) (append_escaped output s)
unfolding append_escaped
append_escaped-Adds output s rest = simp append_assoc

-- The same, up to a closing bracket.
abbrev AddsList : ℕ → Bytes → (Bytes → Bytes) → Bytes → Type 0
AddsList bracket output text out = (rest : Bytes) → out ++ (bracket ∷ rest) ≡ output ++ text rest

module _ (libc : Libc) where
  abbrev listed_items : Bool → Items → Bytes → Bytes
  listed_items first xs rest = if first then render_items libc xs rest else more_items libc xs rest

  abbrev listed_fields : Bool → Fields → Bytes → Bytes
  listed_fields first fs rest =
      if first then render_fields libc fs rest else more_fields libc fs rest

  separate-item :
      (output : Bytes) (first : Bool) (v : Value) (xs : Items) (rest : Bytes)
      → separate output first ++ render libc v (more_items libc xs rest)
        ≡ output ++ listed_items first (item v xs) rest
  separate-item output true v xs rest = refl
  separate-item output false v xs rest = append_assoc output (b',' ∷ []) _

  separate-field :
      (output : Bytes) (first : Bool) (k : Bytes) (v : Value) (fs : Fields) (rest : Bytes)
      → (append_escaped (separate output first) k ++ b':' ∷ [])
          ++ render libc v (more_fields libc fs rest)
        ≡ output ++ listed_fields first (field k v fs) rest
  separate-field output true k v fs rest =
      append_assoc (append_escaped output k) (b':' ∷ []) _
      ∙ append_escaped-Adds output k (b':' ∷ render libc v (more_fields libc fs rest))
  separate-field output false k v fs rest =
      append_assoc (append_escaped (output ++ b',' ∷ []) k) (b':' ∷ []) _
      ∙ append_escaped-Adds (output ++ b',' ∷ []) k
          (b':' ∷ render libc v (more_fields libc fs rest))
      ∙ append_assoc output (b',' ∷ []) _

  mutual
    unfolding append_value

    append_value-Adds :
        (v : Value) (output : Bytes)
        → IsWellFormed v
        → Returns (Adds output (render libc v)) (append_value libc output v)
    append_value-Adds null_value output w = λ rest. simp append_assoc
    append_value-Adds (boolean true) output w = λ rest. simp append_assoc
    append_value-Adds (boolean false) output w = λ rest. simp append_assoc
    append_value-Adds (number d) output w = rw w (λ rest. simp append_assoc)
    append_value-Adds (string s) output w = append_escaped-Adds output s
    append_value-Adds (array xs) output w =
        Returns-bind (AddsList b']' (output ++ b'[' ∷ []) (render_items libc xs))
          (Adds output (render libc (array xs))) _ _
          (append_items-Adds xs (output ++ b'[' ∷ []) true w)
          λ out p rest.
            append_assoc out (b']' ∷ []) rest ∙ p rest ∙ append_assoc output (b'[' ∷ []) _
    append_value-Adds (object fs) output w =
        Returns-bind (AddsList b'}' (output ++ b'{' ∷ []) (render_fields libc fs))
          (Adds output (render libc (object fs))) _ _
          (append_fields-Adds fs (output ++ b'{' ∷ []) true w)
          λ out p rest.
            append_assoc out (b'}' ∷ []) rest ∙ p rest ∙ append_assoc output (b'{' ∷ []) _

    append_items-Adds :
        (xs : Items) (output : Bytes) (first : Bool)
        → WellFormedItems xs
        → Returns (AddsList b']' output (listed_items first xs)) (append_items libc output first xs)
    append_items-Adds no_items output true w = λ rest. refl
    append_items-Adds no_items output false w = λ rest. refl
    append_items-Adds (item v xs) output first w =
        let out₀ = separate output first in
        Returns-bind (Adds out₀ (render libc v))
          (AddsList b']' output (listed_items first (item v xs))) _ _ (append_value-Adds v out₀ w.0)
          λ out p.
            Returns-mono (AddsList b']' out (more_items libc xs))
              (AddsList b']' output (listed_items first (item v xs))) _
              (append_items-Adds xs out false w.1)
              λ out' q rest.
                q rest ∙ p (more_items libc xs rest) ∙ separate-item output first v xs rest

    append_fields-Adds :
        (fs : Fields) (output : Bytes) (first : Bool)
        → WellFormedFields fs
        → Returns
            (AddsList b'}' output (listed_fields first fs))
            (append_fields libc output first fs)
    append_fields-Adds no_fields output true w = λ rest. refl
    append_fields-Adds no_fields output false w = λ rest. refl
    append_fields-Adds (field k v fs) output first w =
        let keyed = append_escaped (separate output first) k ++ b':' ∷ [] in
        Returns-bind (Adds keyed (render libc v))
          (AddsList b'}' output (listed_fields first (field k v fs))) _ _
          (append_value-Adds v keyed w.1)
          λ out p.
            Returns-mono (AddsList b'}' out (more_fields libc fs))
              (AddsList b'}' output (listed_fields first (field k v fs))) _
              (append_fields-Adds fs out false w.2)
              λ out' q rest.
                q rest ∙ p (more_fields libc fs rest) ∙ separate-field output first k v fs rest

  returned : (r : Result Bytes) (text : Bytes) → Returns (λ out. out ≡ text) r → r ≡ ok text
  returned (ok a) text h = ap ok h
  returned (throw e) text h = elim h [ ]
  returned out_of_fuel text h = elim h [ ]

  -- A well-formed value is written, and its text is `render`.
  pub stringify-render : (v : Value) → IsWellFormed v → stringify libc v ≡ ok (render libc v [])
  unfolding stringify
  stringify-render v w = returned (append_value libc [] v) (render libc v []) (
      Returns-mono (Adds [] (render libc v)) (λ out. out ≡ render libc v []) _
        (append_value-Adds v [] w) λ out p. sym (append-nil out) ∙ p [])
