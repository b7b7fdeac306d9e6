-- ===== src/Tokenizer/Linked/Join.antt =====
-- A merge of two neighbours in `tokenize_segment` of src/tokenizer.cpp keeps the symbols linked.
use branchscore.Base.{
  ℕ, suc, ◌+◌, ◌≤◌, ◌≡◌, ◌≢◌, ◌⊎◌, length, inl, inr, refl, sym, ap, ◌∙◌, Option, none, some, List,
  ◌==◌, ==_iff, Bool-cases, arith,
}
use branchscore.Tokenizer.Linked.Links.{
  Link, last, chained, IsLinked, Follows, Link-Follows, Keeps, kept_by, some-injective,
  length-relink, at-relink_next, at-relink_other,
}
use branchscore.Tokenizer.Linked.Store.{
  IsAlive, at-store, at-store_other, length-store, alive_count, alive_count-store,
  alive_count-store_empty,
}
use branchscore.Tokenizer.Merge.{Symbol, at, store, join, relink}

module _ (end : ℕ) (ss : List Symbol) (l r : ℕ) (linked : IsLinked end ss)
    (left_alive : IsAlive (at ss l)) (right_alive : IsAlive (at ss r))
    (adjacent : (at ss l).next ≡ some r) where
  neighbours : Follows ss l r
  neighbours = Link-Follows r (linked.links l left_alive) adjacent

  abbrev merged : Symbol
  merged = record (at ss l) { size = (at ss l).size + (at ss r).size; next = (at ss r).next }

  next-ne : (j : ℕ) → j ≤ r → (at ss r).next ≢ some j
  next-ne j h e =
      let after = Link-Follows j (linked.links r right_alive) e in omega (arith, after.later)

  abbrev written : List Symbol
  written = store r (record (at ss r) { size = 0 }) (store l merged ss)

  at-written_left : at written l ≡ merged
  at-written_left =
      at-store_other r l _ _ (λ e. omega (arith, neighbours.later, e))
      ∙ at-store l merged ss left_alive

  at-written_right : at written r ≡ record (at ss r) { size = 0 }
  at-written_right =
      let kept = at-store_other l r merged ss (λ e. omega (arith, neighbours.later, e)) in
      at-store r _ _ (rw kept right_alive)

  at-written_other : (j : ℕ) → j ≢ l → j ≢ r → at written j ≡ at ss j
  at-written_other j not_left not_right =
      at-store_other r j _ _ (λ e. not_right (sym e))
      ∙ at-store_other l j merged ss (λ e. not_left (sym e))

  at-join_left : at (join l r ss) l ≡ merged
  unfolding join
  at-join_left =
      at-relink_other (at ss r).next l l written (next-ne l (omega (arith, neighbours.later)))
      ∙ at-written_left

  at-join_right : at (join l r ss) r ≡ record (at ss r) { size = 0 }
  unfolding join
  at-join_right =
      at-relink_other (at ss r).next l r written (next-ne r (omega arith)) ∙ at-written_right

  at-join_next :
      (j : ℕ)
      → (at ss r).next ≡ some j
      → at (join l r ss) j ≡ record (at ss j) { previous = some l }
  unfolding join
  at-join_next j e =
      let after = Link-Follows j (linked.links r right_alive) e in
      let kept =
        at-written_other j (λ h. omega (arith, h, neighbours.later, after.later))
          (λ h. omega (arith, h, after.later)) in
      at-relink_next (at ss r).next l j written e (rw kept after.alive)
      ∙ ap {A = Symbol} {B = Symbol} (λ s. record s { previous = some l }) kept

  at-join_other : (j : ℕ) → j ≢ l → j ≢ r → (at ss r).next ≢ some j → at (join l r ss) j ≡ at ss j
  unfolding join
  at-join_other j not_left not_right not_next =
      at-relink_other (at ss r).next l j written not_next ∙ at-written_other j not_left not_right

  data Place (j : ℕ) : Type 0 where
    is_left : j ≡ l → Place j
    is_right : j ≡ r → Place j
    is_next : j ≢ l → j ≢ r → (at ss r).next ≡ some j → Place j
    elsewhere : j ≢ l → j ≢ r → (at ss r).next ≢ some j → Place j

  place_by : (j : ℕ) (o : Option ℕ) → (at ss r).next ≡ o → j ≢ l → j ≢ r → Place j
  place_by j none e not_left not_right = elsewhere not_left not_right (λ h. cc)
  place_by j (some k) e not_left not_right = elim (Bool-cases (k == j)) [
    | inl same ↦ is_next not_left not_right (e ∙ ap some (omega (arith, (==_iff k j).0 same)))
    | inr other ↦
        elsewhere not_left not_right
          (λ h. let same : k ≡ j = some-injective (sym e ∙ h) in ground arith)
  ]

  place : (j : ℕ) → Place j
  place j = elim (Bool-cases (j == l)) [
    | inl at_left ↦ is_left ((==_iff j l).0 at_left)
    | inr not_left ↦ elim (Bool-cases (j == r)) [
      | inl at_right ↦ is_right ((==_iff j r).0 at_right)
      | inr not_right ↦ place_by j (at ss r).next refl (λ e. ground arith) (λ e. ground arith)
    ]
  ]

  kept : (j : ℕ) → j ≢ l → j ≢ r → Keeps (at (join l r ss) j) (at ss j)
  kept j not_left not_right = elim (place j) [
    | is_left e ↦ absurd (not_left e)
    | is_right e ↦ absurd (not_right e)
    | is_next g h e ↦ kept_by (some l) (at-join_next j e)
    | elsewhere g h e ↦ kept_by (at ss j).previous (at-join_other j g h e)
  ]

  as_target :
      (i j : ℕ)
      → i ≢ l
      → i ≢ r
      → Follows ss i j
      → IsAlive (at (join l r ss) j)
        × ((at (join l r ss) j).offset ≡ (at ss j).offset)
        × ((at (join l r ss) j).previous ≡ (at ss j).previous)
  as_target i j not_left not_right f = elim (place j) [
    | is_left e ↦ rw (e, at-join_left) (omega (arith, left_alive), refl, refl)
    | is_right e ↦ absurd (
        not_left (
          some-injective
            (sym f.links_back ∙ ap (λ k. (at ss k).previous) e ∙ neighbours.links_back)))
    | is_next g h e ↦
        let after = Link-Follows j (linked.links r right_alive) e in
        absurd (not_right (some-injective (sym f.links_back ∙ after.links_back)))
    | elsewhere g h e ↦ rw (at-join_other j g h e) (f.alive, refl, refl)
  ]

  Follows-join : (i j : ℕ) → i ≢ l → i ≢ r → Follows ss i j → Follows (join l r ss) i j
  Follows-join i j not_left not_right f =
      let k = kept i not_left not_right in
      let (alive, same_offset, same_previous) = as_target i j not_left not_right f in
      record {
        later = f.later;
        alive = alive;
        adjoins = omega (arith, f.adjoins, k.offset_kept, k.size_kept, same_offset);
        links_back = same_previous ∙ f.links_back;
      }

  -- The symbol behind the right one follows the left one.
  Follows-join_next : (j : ℕ) → Follows ss r j → (at ss r).next ≡ some j → Follows (join l r ss) l j
  Follows-join_next j f e = record {
    later = omega (arith, neighbours.later, f.later);
    alive = rw (at-join_next j e) f.alive;
    adjoins = rw (at-join_left, at-join_next j e) (omega (arith, neighbours.adjoins, f.adjoins));
    links_back = rw (at-join_next j e) refl;
  }

  Link-join_left : Link end ss r → Link end (join l r ss) l
  Link-join_left (last n s) =
      last (rw at-join_left n) (rw at-join_left (omega (arith, s, neighbours.adjoins)))
  Link-join_left (chained j n f) = chained j (rw at-join_left n) (Follows-join_next j f n)

  Link-join_other : (i : ℕ) → i ≢ l → i ≢ r → Link end ss i → Link end (join l r ss) i
  Link-join_other i not_left not_right (last n s) =
      let k = kept i not_left not_right in
      last (k.next_kept ∙ n) (omega (arith, s, k.offset_kept, k.size_kept))
  Link-join_other i not_left not_right (chained j n f) =
      let k = kept i not_left not_right in
      chained j (k.next_kept ∙ n) (Follows-join i j not_left not_right f)

  IsAlive-before : (i : ℕ) → i ≢ l → i ≢ r → IsAlive (at (join l r ss) i) → IsAlive (at ss i)
  IsAlive-before i not_left not_right h =
      let k = kept i not_left not_right in omega (arith, h, k.size_kept)

  right_empty : (i : ℕ) → i ≡ r → IsAlive (at (join l r ss) i) → ⊥
  right_empty i e h =
      let empty : (at (join l r ss) i).size ≡ 0 = rw (e, at-join_right) refl in
      omega (arith, h, empty)

  Link-join : (i : ℕ) → IsAlive (at (join l r ss) i) → Link end (join l r ss) i
  Link-join i h = elim (place i) [
    | is_left e ↦ rw e (Link-join_left (linked.links r right_alive))
    | is_right e ↦ absurd (right_empty i e h)
    | is_next f g e ↦ Link-join_other i f g (linked.links i (IsAlive-before i f g h))
    | elsewhere f g e ↦ Link-join_other i f g (linked.links i (IsAlive-before i f g h))
  ]

  -- What a symbol's `previous` says, of two symbols that are not merged.
  back_other :
      (p j : ℕ)
      → IsAlive (at ss j)
      → j ≢ r
      → (at ss r).next ≢ some j
      → (at ss j).previous ≡ some p
      → (at (join l r ss) p).next ≡ some j
  back_other p j h not_right not_next e =
      let forth = linked.backs p j h e in
      let not_l : p ≢ l =
        λ same. not_right (some-injective (sym forth ∙ ap (λ k. (at ss k).next) same ∙ adjacent)) in
      let not_r : p ≢ r = λ same. not_next (ap (λ k. (at ss k).next) (sym same) ∙ forth) in
      let k = kept p not_l not_r in k.next_kept ∙ forth

  back-join :
      (p j : ℕ)
      → IsAlive (at (join l r ss) j)
      → (at (join l r ss) j).previous ≡ some p
      → (at (join l r ss) p).next ≡ some j
  back-join p j h e = elim (place j) [
    | is_left same ↦
        back_other p j (rw same left_alive) (λ k. omega (arith, k, same, neighbours.later))
          (rw same (next-ne l (omega (arith, neighbours.later))))
          (sym (rw (same, at-join_left) refl) ∙ e)
    | is_right same ↦ absurd (right_empty j same h)
    | is_next f g n ↦
        let same : l ≡ p = some-injective (sym (rw (at-join_next j n) refl) ∙ e) in
        rw (sym same, at-join_left) n
    | elsewhere f g n ↦
        back_other p j (IsAlive-before j f g h) g n (sym (rw (at-join_other j f g n) refl) ∙ e)
  ]

  first_kept : IsAlive (at (join l r ss) 0) × ((at (join l r ss) 0).offset ≡ 0)
  first_kept = elim (place 0) [
    | is_left e ↦ rw (e, at-join_left) (omega (arith, left_alive), rw (sym e) linked.first_offset)
    | is_right e ↦ absurd (omega (arith, e, neighbours.later))
    | is_next f g e ↦ absurd (next-ne 0 (omega arith) e)
    | elsewhere f g e ↦ rw (at-join_other 0 f g e) (linked.first_alive, linked.first_offset)
  ]

  pub IsLinked-join : IsLinked end (join l r ss)
  IsLinked-join = record {
    first_alive = first_kept.0;
    first_offset = first_kept.1;
    links = Link-join;
    backs = back-join;
  }

  alive_count-relink :
      (o : Option ℕ) → (at ss r).next ≡ o → alive_count (relink o l written) ≡ alive_count written
  unfolding relink
  alive_count-relink none e = refl
  alive_count-relink (some j) e =
      let after = Link-Follows j (linked.links r right_alive) e in
      let kept =
        at-written_other j (λ h. omega (arith, h, neighbours.later, after.later))
          (λ h. omega (arith, h, after.later)) in
      let alive : IsAlive (at written j) = rw kept after.alive in
      alive_count-store j _ written alive alive

  -- A merge leaves one living symbol less.
  pub alive_count-join : suc (alive_count (join l r ss)) ≡ alive_count ss
  unfolding join
  alive_count-join =
      let first = at-store_other l r merged ss (λ e. omega (arith, neighbours.later, e)) in
      omega (
        arith,
        alive_count-relink (at ss r).next refl,
        alive_count-store_empty r (record (at ss r) { size = 0 }) (store l merged ss)
            (rw first right_alive) refl,
        alive_count-store l merged ss left_alive (omega (arith, left_alive)),
      )

  pub length-join : length (join l r ss) ≡ length ss
  unfolding join
  length-join =
      length-relink (at ss r).next l written
      ∙ length-store r _ (store l merged ss)
      ∙ length-store l merged ss

  -- An empty symbol stays empty, and a link that a merge undoes was to an empty symbol.
  pub empty_stays : (i : ℕ) → (at ss i).size ≡ 0 → (at (join l r ss) i).size ≡ 0
  empty_stays i h = elim (place i) [
    | is_left e ↦
        let alive : IsAlive (at ss i) = rw e left_alive in absurd (omega (arith, h, alive))
    | is_right e ↦ rw (e, at-join_right) refl
    | is_next f g e ↦ (kept i f g).size_kept ∙ h
    | elsewhere f g e ↦ (kept i f g).size_kept ∙ h
  ]

  pub link_stays :
      (i j : ℕ)
      → (at ss i).next ≡ some j
      → ((at (join l r ss) i).size ≡ 0)
        ⊎ ((at (join l r ss) j).size ≡ 0)
        ⊎ ((at (join l r ss) i).next ≡ some j)
  link_stays i j h = elim (place i) [
    | is_left e ↦
        let same : r ≡ j = some-injective (sym adjacent ∙ ap (λ k. (at ss k).next) (sym e) ∙ h) in
        inr (inl (rw (sym same, at-join_right) refl))
    | is_right e ↦ inl (rw (e, at-join_right) refl)
    | is_next f g e ↦ inr (inr ((kept i f g).next_kept ∙ h))
    | elsewhere f g e ↦ inr (inr ((kept i f g).next_kept ∙ h))
  ]

  pub left_stays : IsAlive (at (join l r ss) l)
  left_stays = rw at-join_left (omega (arith, left_alive))
