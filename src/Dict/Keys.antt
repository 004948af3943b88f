-- ===== src/Dict/Keys.antt =====
-- Distinct keys, under which a dict comprehension is the list that it is built from.
use mathlib.Core.List.{reverse-cons}
use maibot_lunagentic_resear.Prelude.{
  all_but_last, last_of, String, ◌≡◌, refl, sym, false, none, List, [], ◌∷◌, ◌++◌, reverse,
  append-nil, append_assoc, arith, ◌==◌, eq_iff,
}
use maibot_lunagentic_resear.Dict.{Dict, lookup, insert, update}

module _ {ℓ} {V : Type ℓ} where
  abbrev pub Absent : String → List (String × V) → Type 0
  Absent k [] = Unit {0}
  Absent k ((j, _) ∷ d) = ((j == k) ≡ false) × Absent k d

  -- No key occurs twice.
  abbrev pub HasDistinctKeys : List (String × V) → Type 0
  HasDistinctKeys [] = Unit {0}
  HasDistinctKeys ((k, _) ∷ d) = Absent k d × HasDistinctKeys d

  pub insert-Absent :
      (k : String) (v : V) (d : Dict V) → Absent k d → insert k v d ≡ d ++ (k, v) ∷ []
  unfolding insert
  insert-Absent k v [] h = refl
  insert-Absent k v ((j, w) ∷ d) h = ground (arith, insert-Absent k v d h.1)

  pub lookup-Absent : (k : String) (d : Dict V) → Absent k d → lookup k d ≡ none
  unfolding lookup
  lookup-Absent k [] h = refl
  lookup-Absent k ((j, w) ∷ d) h = ground (arith, lookup-Absent k d h.1)

  pub Absent-append :
      (k : String) (d e : List (String × V)) → Absent k d → Absent k e → Absent k (d ++ e)
  Absent-append k [] e h g = g
  Absent-append k ((j, w) ∷ d) e h g = (h.0, Absent-append k d e h.1 g)

  -- The keys of the items are new to the dict.
  abbrev pub AreNew : Dict V → List (String × V) → Type 0
  AreNew d [] = Unit {0}
  AreNew d ((k, _) ∷ items) = Absent k d × AreNew d items

  AreNew-snoc :
      (k : String) (v : V) (d : Dict V) (items : List (String × V))
      → Absent k items
      → AreNew d items
      → AreNew (d ++ (k, v) ∷ []) items
  AreNew-snoc k v d [] h g = tt
  AreNew-snoc k v d ((j, w) ∷ items) h g = (
    Absent-append j d ((k, v) ∷ []) g.0 (ground (arith, eq_iff k j, eq_iff j k)),
    AreNew-snoc k v d items h.1 g.1,
  )

  pub AreNew-nil : (items : List (String × V)) → AreNew [] items
  AreNew-nil [] = tt
  AreNew-nil (i ∷ items) = (tt, AreNew-nil items)

  pub update_new :
      (d : Dict V) (items : List (String × V))
      → HasDistinctKeys items
      → AreNew d items
      → update d items ≡ d ++ items
  unfolding update
  update_new d [] u h = sym (append-nil d)
  update_new d ((k, v) ∷ items) u h = rw (insert-Absent k v d h.0) (
      rw (update_new (d ++ (k, v) ∷ []) items u.1 (AreNew-snoc k v d items u.0 h.1))
        (append_assoc d ((k, v) ∷ []) items))

  -- A comprehension over distinct keys keeps the items as they are.
  pub update-nil : (items : List (String × V)) → HasDistinctKeys items → update [] items ≡ items
  update-nil items u = update_new [] items u (AreNew-nil items)

  pub HasDistinctKeys-snoc :
      (k : String) (v : V) (d : List (String × V))
      → HasDistinctKeys d
      → Absent k d
      → HasDistinctKeys (d ++ (k, v) ∷ [])
  HasDistinctKeys-snoc k v [] u h = (tt, tt)
  HasDistinctKeys-snoc k v ((j, w) ∷ d) u h = (
    Absent-append j d ((k, v) ∷ []) u.0 (ground (arith, eq_iff k j, eq_iff j k)),
    HasDistinctKeys-snoc k v d u.1 h.1,
  )

  pub Absent-reverse : (k : String) (d : List (String × V)) → Absent k d → Absent k (reverse d)
  Absent-reverse k [] h = h
  Absent-reverse k (x ∷ d) h =
      rw (reverse-cons x d)
        (Absent-append k (reverse d) (x ∷ []) (Absent-reverse k d h.1) (h.0, tt))

  pub HasDistinctKeys-reverse :
      (d : List (String × V)) → HasDistinctKeys d → HasDistinctKeys (reverse d)
  HasDistinctKeys-reverse [] u = tt
  HasDistinctKeys-reverse ((k, v) ∷ d) u = rw (reverse-cons (k, v) d) (
      HasDistinctKeys-snoc k v (reverse d) (HasDistinctKeys-reverse d u.1) (Absent-reverse k d u.0))

  pub Absent-all_but_last :
      (k : String) (x : String × V) (xs : List (String × V))
      → Absent k (x ∷ xs)
      → Absent k (all_but_last x xs)
  Absent-all_but_last k x [] h = tt
  Absent-all_but_last k x (y ∷ ys) h = (h.0, Absent-all_but_last k y ys h.1)

  pub HasDistinctKeys-all_but_last :
      (x : String × V) (xs : List (String × V))
      → HasDistinctKeys (x ∷ xs)
      → HasDistinctKeys (all_but_last x xs)
  HasDistinctKeys-all_but_last x [] u = tt
  HasDistinctKeys-all_but_last x (y ∷ ys) u =
      (Absent-all_but_last x.0 y ys u.0, HasDistinctKeys-all_but_last y ys u.1)

  ne-last_of :
      (k : String) (y : String × V) (ys : List (String × V))
      → Absent k (y ∷ ys)
      → (k == (last_of y ys).0) ≡ false
  ne-last_of k y [] h = ground (arith, eq_iff k y.0, eq_iff y.0 k)
  ne-last_of k y (z ∷ zs) h = ne-last_of k z zs h.1

  pub Absent-last_of :
      (x : String × V) (xs : List (String × V))
      → HasDistinctKeys (x ∷ xs)
      → Absent (last_of x xs).0 (all_but_last x xs)
  Absent-last_of x [] u = tt
  Absent-last_of x (y ∷ ys) u = (ne-last_of x.0 y ys u.0, Absent-last_of y ys u.1)
