-- ===== src/Dict/Laws.antt =====
-- The laws of maps: every operation as seen by `lookup`, and the keys' being distinct.
use ghost_guard.Prelude.{
  String, Bool, ◌≡◌, refl, Option, none, some, [], ◌∷◌, arith, ◌==◌, eq_iff, if◌then◌else◌,
}
use ghost_guard.Dict.{Dict, lookup, insert, delete, delete_if, get_or}

-- What is left of a value that `p` may delete.
abbrev pub unless {ℓ} : {V : Type ℓ} → (V → Bool) → Option V → Option V
unless p none = none
unless p (some v) = if p v then none else some v

-- No key stands twice.
abbrev pub IsDistinct {ℓ} : {V : Type ℓ} → Dict V → Type ℓ
IsDistinct [] = Unit
IsDistinct ((k, v) ∷ m) = (lookup k m ≡ none) × IsDistinct m

module _ {ℓ} {V : Type ℓ} where
  -- After an assignment its key has the new value, and every other key the one of before.
  pub lookup-insert :
      (key asked : String) (new : V) (m : Dict V)
      → lookup asked (insert key new m) ≡ (if key == asked then some new else lookup asked m)
  unfolding lookup insert
  lookup-insert key asked new [] = refl
  lookup-insert key asked new ((held, old) ∷ others) =
      let later = lookup-insert key asked new others in
      ground (arith, later, eq_iff held key, eq_iff held asked, eq_iff key asked)

  pub get_or-insert :
      (zero_value v : V) (k j : String) (m : Dict V)
      → get_or zero_value j (insert k v m) ≡ (if k == j then v else get_or zero_value j m)
  unfolding get_or
  get_or-insert zero_value v k j m = ground (arith, lookup-insert k j v m)

  pub lookup-delete :
      (k j : String) (m : Dict V) → lookup j (delete k m) ≡ (if k == j then none else lookup j m)
  unfolding lookup delete
  lookup-delete k j [] = ground arith
  lookup-delete k j ((i, w) ∷ m) =
      ground (arith, eq_iff k j, eq_iff i k, eq_iff i j, lookup-delete k j m)

  pub lookup-delete_if_absent :
      (p : V → Bool) (j : String) (m : Dict V) → lookup j m ≡ none → lookup j (delete_if p m) ≡ none
  unfolding lookup delete_if
  lookup-delete_if_absent p j [] h = refl
  lookup-delete_if_absent p j ((i, w) ∷ m) h = ground (arith, lookup-delete_if_absent p j m)

  pub lookup-delete_if :
      (p : V → Bool) (j : String) (m : Dict V)
      → IsDistinct m
      → lookup j (delete_if p m) ≡ unless p (lookup j m)
  unfolding lookup delete_if
  lookup-delete_if p j [] h = refl
  lookup-delete_if p j ((i, w) ∷ m) h =
      ground (arith, eq_iff i j, lookup-delete_if p j m h.1, lookup-delete_if_absent p i m h.0)

  pub insert-IsDistinct :
      (k : String) (v : V) (m : Dict V) → IsDistinct m → IsDistinct (insert k v m)
  unfolding insert lookup
  insert-IsDistinct k v [] h = (refl, tt)
  insert-IsDistinct k v ((i, w) ∷ m) h =
      ground (arith, eq_iff i k, eq_iff k i, insert-IsDistinct k v m h.1, lookup-insert k i v m)

  pub delete-IsDistinct : (k : String) (m : Dict V) → IsDistinct m → IsDistinct (delete k m)
  unfolding delete lookup
  delete-IsDistinct k [] h = tt
  delete-IsDistinct k ((i, w) ∷ m) h =
      ground (arith, delete-IsDistinct k m h.1, lookup-delete k i m)

  pub delete_if-IsDistinct : (p : V → Bool) (m : Dict V) → IsDistinct m → IsDistinct (delete_if p m)
  unfolding delete_if
  delete_if-IsDistinct p [] h = tt
  delete_if-IsDistinct p ((i, w) ∷ m) h =
      ground (arith, delete_if-IsDistinct p m h.1, lookup-delete_if_absent p i m h.0)

pub ruleset dict_laws = (lookup-insert, lookup-delete)
