-- ===== src/Json/RoundTrip.antt =====
-- What `json::stringify` writes, `json::parse` reads back.
use branchscore.Base.{
  ℕ, zero, suc, ◌+◌, ◌*◌, ◌<◌, ◌≤◌, ◌≡◌, refl, ap, true, false, [], ◌∷◌, Bytes, arith, ◌==◌, length,
  length-append, less, less_asymm, less-equal,
}
use branchscore.Double.{Libc}
use branchscore.Json.Number.{PrintsNumbers, Delimits, parse_number-print, peek-IsNumber}
use branchscore.Json.Parser.{
  peek, is_space, skip_space, expect, parse_literal, parse_scalar, parse_value, parse_array,
  parse_items, parse_object, parse_fields, parse,
}
use branchscore.Json.Printer.{escape_bytes, stringify}
use branchscore.Json.Render.{
  quoted, render, render_items, more_items, render_fields, more_fields, stringify-render,
}
use branchscore.Json.Text.{parse_string-escaped}
use branchscore.Json.Value.{
  Value, Items, Fields, null_value, boolean, number, string, array, object, no_items, item,
  no_fields, field, contains, emplace,
}
use branchscore.Json.WellFormed.{IsWellFormed, WellFormedItems, WellFormedFields, Above}
use branchscore.Result.{ok}

skip_space-none : (ts : Bytes) → is_space (peek ts) ≡ false → skip_space ts ≡ ts
unfolding skip_space
skip_space-none [] h = refl
skip_space-none (c ∷ cs) h = ground arith

module _ (libc : Libc) (prints : PrintsNumbers libc) where
  -- The first byte of a value is no space, and no bracket that closes.
  first_byte :
      (v : Value) (rest : Bytes)
      → IsWellFormed v
      → (is_space (peek (render libc v rest)) ≡ false)
        × ((peek (render libc v rest) == b']') ≡ false)
  first_byte (number d) rest w =
      ground (arith, peek-IsNumber (libc.print_double d) rest (prints.printed d w))
  first_byte (boolean true) rest w = (refl, refl)
  first_byte (boolean false) rest w = (refl, refl)
  first_byte _ rest w = (refl, refl)

  more_items-Delimits : (xs : Items) (rest : Bytes) → Delimits (more_items libc xs rest)
  more_items-Delimits no_items rest = record {
    no_digit = refl;
    no_point = refl;
    no_e = refl;
    no_E = refl;
  }
  more_items-Delimits (item v xs) rest = record {
    no_digit = refl;
    no_point = refl;
    no_e = refl;
    no_E = refl;
  }

  more_fields-Delimits : (fs : Fields) (rest : Bytes) → Delimits (more_fields libc fs rest)
  more_fields-Delimits no_fields rest = record {
    no_digit = refl;
    no_point = refl;
    no_e = refl;
    no_E = refl;
  }
  more_fields-Delimits (field k v fs) rest = record {
    no_digit = refl;
    no_point = refl;
    no_e = refl;
    no_E = refl;
  }

  end-Delimits : Delimits []
  end-Delimits = record { no_digit = refl; no_point = refl; no_e = refl; no_E = refl }

  length-quoted : (s rest : Bytes) → length rest < length (quoted s rest)
  length-quoted s rest = omega (arith, length-append (escape_bytes s) (b'"' ∷ rest))

  mutual
    length-render : (v : Value) (rest : Bytes) → length rest ≤ length (render libc v rest)
    length-render null_value rest = omega arith
    length-render (boolean true) rest = omega arith
    length-render (boolean false) rest = omega arith
    length-render (number d) rest = omega (arith, length-append (libc.print_double d) rest)
    length-render (string s) rest = omega (arith, length-quoted s rest)
    length-render (array no_items) rest = omega arith
    length-render (array (item v xs)) rest =
        omega (arith, length-render v (more_items libc xs rest), length-more_items xs rest)
    length-render (object no_fields) rest = omega arith
    length-render (object (field k v fs)) rest = omega (
      arith,
      length-quoted k (b':' ∷ render libc v (more_fields libc fs rest)),
      length-render v (more_fields libc fs rest),
      length-more_fields fs rest,
    )

    length-more_items : (xs : Items) (rest : Bytes) → length rest < length (more_items libc xs rest)
    length-more_items no_items rest = omega arith
    length-more_items (item v xs) rest =
        omega (arith, length-render v (more_items libc xs rest), length-more_items xs rest)

    length-more_fields :
        (fs : Fields) (rest : Bytes) → length rest < length (more_fields libc fs rest)
    length-more_fields no_fields rest = omega arith
    length-more_fields (field k v fs) rest = omega (
      arith,
      length-quoted k (b':' ∷ render libc v (more_fields libc fs rest)),
      length-render v (more_fields libc fs rest),
      length-more_fields fs rest,
    )

  -- Every key of `fs` is below `k`; all keys of the first are below those of the second.
  abbrev Below : Bytes → Fields → Type 0
  Below k no_fields = Unit
  Below k (field j v fs) = (less j k ≡ true) × Below k fs

  abbrev snoc : Fields → Bytes → Value → Fields
  snoc no_fields k v = field k v no_fields
  snoc (field j w fs) k v = field j w (snoc fs k v)

  abbrev concat : Fields → Fields → Fields
  concat no_fields gs = gs
  concat (field j w fs) gs = field j w (concat fs gs)

  concat-snoc :
      (fs : Fields) (k : Bytes) (v : Value) (gs : Fields)
      → concat (snoc fs k v) gs ≡ concat fs (field k v gs)
  concat-snoc no_fields k v gs = refl
  concat-snoc (field j w fs) k v gs = ap (field j w) (concat-snoc fs k v gs)

  concat-empty : (fs : Fields) → concat fs no_fields ≡ fs
  concat-empty no_fields = refl
  concat-empty (field j w fs) = ap (field j w) (concat-empty fs)

  abbrev Apart : Fields → Fields → Type 0
  Apart result no_fields = Unit
  Apart result (field k v fs) = Below k result × Apart result fs

  emplace-snoc : (k : Bytes) (v : Value) (fs : Fields) → Below k fs → emplace k v fs ≡ snoc fs k v
  unfolding emplace
  emplace-snoc k v no_fields h = refl
  emplace-snoc k v (field j w fs) h =
      rw (less_asymm j k h.0, less-equal j k h.0) (ap (field j w) (emplace-snoc k v fs h.1))

  contains-Below : (k : Bytes) (fs : Fields) → Below k fs → contains k fs ≡ false
  unfolding contains
  contains-Below k no_fields h = refl
  contains-Below k (field j w fs) h = rw (less-equal j k h.0) (contains-Below k fs h.1)

  Below-snoc :
      (j k : Bytes) (v : Value) (fs : Fields) → Below j fs → less k j ≡ true → Below j (snoc fs k v)
  Below-snoc j k v no_fields h l = (l, tt)
  Below-snoc j k v (field i w fs) h l = (h.0, Below-snoc j k v fs h.1 l)

  Apart-snoc :
      (result : Fields) (k : Bytes) (v : Value) (fs : Fields)
      → Apart result fs
      → Above k fs
      → Apart (snoc result k v) fs
  Apart-snoc result k v no_fields h a = tt
  Apart-snoc result k v (field j w fs) h a =
      (Below-snoc j k v result h.0 a.0, Apart-snoc result k v fs h.1 a.1)

  Apart-empty : (fs : Fields) → Apart no_fields fs
  Apart-empty no_fields = tt
  Apart-empty (field k v fs) = (tt, Apart-empty fs)

  abbrev IsScalar : Value → Type 0
  IsScalar (array xs) = ⊥
  IsScalar (object fs) = ⊥
  IsScalar _ = Unit

  -- One step of `parse_value` on a scalar.
  scalar_step :
      (v : Value) (f : ℕ) (rest : Bytes)
      → IsScalar v
      → IsWellFormed v
      → Delimits rest
      → parse_value libc (suc f) (render libc v rest) ≡ ok (v, rest)
  unfolding parse_value parse_scalar parse_literal
  scalar_step null_value f rest s w d = refl
  scalar_step (boolean true) f rest s w d = refl
  scalar_step (boolean false) f rest s w d = refl
  scalar_step (number n) f rest s w d = ground (
    arith,
    peek-IsNumber (libc.print_double n) rest (prints.printed n w),
    parse_number-print libc prints n rest w d,
  )
  scalar_step (string t) f rest s w d = ground (arith, parse_string-escaped t rest)
  scalar_step (array xs) f rest s w d = elim s [ ]
  scalar_step (object fs) f rest s w d = elim s [ ]

  mutual
    unfolding parse_value expect

    parse_value-render :
        (v : Value) (f : ℕ) (rest : Bytes)
        → IsWellFormed v
        → Delimits rest
        → 3 * length (render libc v rest) + 2 < f
        → parse_value libc f (render libc v rest) ≡ ok (v, rest)
    parse_value-render v zero rest w d h = absurd (omega arith)
    parse_value-render (array xs) (suc f) rest w d h = parse_array-render xs f rest w (omega arith)
    parse_value-render (object fs) (suc f) rest w d h =
        parse_object-render fs f rest w (omega arith)
    parse_value-render null_value (suc f) rest w d h = scalar_step null_value f rest tt w d
    parse_value-render (boolean b) (suc f) rest w d h = scalar_step (boolean b) f rest tt w d
    parse_value-render (number n) (suc f) rest w d h = scalar_step (number n) f rest tt w d
    parse_value-render (string t) (suc f) rest w d h = scalar_step (string t) f rest tt w d

    parse_array-render :
        (xs : Items) (f : ℕ) (rest : Bytes)
        → WellFormedItems xs
        → 3 * length (render libc (array xs) rest) + 1 < f
        → parse_array libc f (render libc (array xs) rest) ≡ ok (array xs, rest)
    parse_array-render xs zero rest w h = absurd (omega arith)
    parse_array-render no_items (suc f) rest w h = rw (skip_space-none (b']' ∷ rest) refl)
    parse_array-render (item v xs) (suc f) rest w h =
        let first = first_byte v (more_items libc xs rest) w.0 in
        ground (
          arith,
          first,
          skip_space-none (render_items libc (item v xs) rest) first.0,
          parse_items-render v xs f rest w.0 w.1 (omega arith),
        )

    parse_items-render :
        (v : Value) (xs : Items) (f : ℕ) (rest : Bytes)
        → IsWellFormed v
        → WellFormedItems xs
        → 3 * length (render_items libc (item v xs) rest) + 3 < f
        → parse_items libc f (render_items libc (item v xs) rest) ≡ ok (item v xs, rest)
    parse_items-render v xs zero rest w ws h = absurd (omega arith)
    parse_items-render v no_items (suc f) rest w ws h = ground (
      arith,
      parse_value-render v f (b']' ∷ rest) w (more_items-Delimits no_items rest) (omega arith),
      skip_space-none (b']' ∷ rest) refl,
    )
    parse_items-render v (item u xs) (suc f) rest w ws h =
        let next = render_items libc (item u xs) rest in
        let le = length-render v (b',' ∷ next) in
        ground (
          arith,
          parse_value-render v f (b',' ∷ next) w (more_items-Delimits (item u xs) rest)
              (omega arith),
          skip_space-none (b',' ∷ next) refl,
          skip_space-none next (first_byte u (more_items libc xs rest) ws.0).0,
          parse_items-render u xs f rest ws.0 ws.1 (omega (arith, le)),
        )

    parse_object-render :
        (fs : Fields) (f : ℕ) (rest : Bytes)
        → WellFormedFields fs
        → 3 * length (render libc (object fs) rest) + 1 < f
        → parse_object libc f (render libc (object fs) rest) ≡ ok (object fs, rest)
    parse_object-render fs zero rest w h = absurd (omega arith)
    parse_object-render no_fields (suc f) rest w h = rw (skip_space-none (b'}' ∷ rest) refl)
    parse_object-render (field k v fs) (suc f) rest w h = ground (
      arith,
      skip_space-none (render_fields libc (field k v fs) rest) refl,
      parse_fields-render no_fields k v fs f rest (Apart-empty (field k v fs)) w (omega arith),
    )

    parse_fields-render :
        (result : Fields) (k : Bytes) (v : Value) (fs : Fields) (f : ℕ) (rest : Bytes)
        → Apart result (field k v fs)
        → WellFormedFields (field k v fs)
        → 3 * length (render_fields libc (field k v fs) rest) + 3 < f
        → parse_fields libc f result (render_fields libc (field k v fs) rest)
          ≡ ok (concat result (field k v fs), rest)
    parse_fields-render result k v fs zero rest a w h = absurd (omega arith)
    parse_fields-render result k v no_fields (suc f) rest a w h =
        let after = render libc v (b'}' ∷ rest) in
        ground (
          arith,
          parse_string-escaped k (b':' ∷ after),
          skip_space-none (b':' ∷ after) refl,
          skip_space-none after (first_byte v (b'}' ∷ rest) w.1).0,
          parse_value-render v f (b'}' ∷ rest) w.1 (more_fields-Delimits no_fields rest)
              (omega (arith, length-quoted k (b':' ∷ after))),
          contains-Below k result a.0,
          emplace-snoc k v result a.0,
          concat-snoc result k v no_fields,
          concat-empty (snoc result k v),
          skip_space-none (b'}' ∷ rest) refl,
        )
    parse_fields-render result k v (field j u fs) (suc f) rest a w h =
        let next = render_fields libc (field j u fs) rest in
        let after = render libc v (b',' ∷ next) in
        let le = length-quoted k (b':' ∷ after) in
        ground (
          arith,
          parse_string-escaped k (b':' ∷ after),
          skip_space-none (b':' ∷ after) refl,
          skip_space-none after (first_byte v (b',' ∷ next) w.1).0,
          parse_value-render v f (b',' ∷ next) w.1 (more_fields-Delimits (field j u fs) rest)
              (omega (arith, le)),
          contains-Below k result a.0,
          emplace-snoc k v result a.0,
          concat-snoc result k v (field j u fs),
          skip_space-none (b',' ∷ next) refl,
          skip_space-none next refl,
          parse_fields-render (snoc result k v) j u fs f rest
              (Apart-snoc result k v (field j u fs) a.1 w.0) w.2
              (omega (arith, le, length-render v (b',' ∷ next))),
        )

  -- If the library reads back the finite numbers that it prints, a well-formed value is written, and
  -- what is written parses to that value.
  pub parse-stringify :
      (v : Value)
      → IsWellFormed v
      → (text : Bytes) × (stringify libc v ≡ ok text) × (parse libc text ≡ ok v)
  unfolding parse
  parse-stringify v w =
      let text = render libc v [] in
      let read = parse_value-render v (4 * length text + 4) [] w end-Delimits (omega arith) in
      (
        text,
        stringify-render libc v w,
        ground (arith, read, skip_space-none text (first_byte v [] w).0),
      )
