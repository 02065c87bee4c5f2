-- ===== src/Context.antt =====
-- context.go: the key-value context of a connection. The lock is the atomicity of each operation.
use Prim.Native.String.{String}
use text.Mathlib.Text.{◌==◌}
use text.Mathlib.TextEquality.{eq_iff}
use gev.Base.{◌≡◌, refl, List, [], ◌∷◌, Option, none, some, arith, if◌then◌else◌}

-- `none` is the nil map of a context that nothing was set in.
pub record KeyValueContext (V : Type 0) : Type 0 where
  pub kv : Option (List (String × V))

module _ {V : Type 0} where
  find : String → List (String × V) → Option V
  find k [] = none
  find k ((j, v) ∷ m) = if j == k then some v else find k m

  remove : String → List (String × V) → List (String × V)
  remove k [] = []
  remove k ((j, v) ∷ m) = let rest = remove k m in if j == k then rest else (j, v) ∷ rest

  abbrev made : Option (List (String × V)) → List (String × V)
  made none = []
  made (some m) = m

  unfoldable pub set : String → V → KeyValueContext V → KeyValueContext V
  unfolding remove
  set key value c = record c { kv = some ((key, value) ∷ remove key (made c.kv)) }

  abbrev remove_in : String → Option (List (String × V)) → Option (List (String × V))
  remove_in key none = none
  remove_in key (some m) = some (remove key m)

  unfoldable pub delete : String → KeyValueContext V → KeyValueContext V
  unfolding remove
  delete key c = record c { kv = remove_in key c.kv }

  -- The value and `exists`.
  unfoldable pub get : String → KeyValueContext V → Option V
  unfolding find
  get key c = find key (made c.kv)

  unfoldable pub reset : KeyValueContext V → KeyValueContext V
  reset c = record c { kv = none }

  find-remove :
      (k j : String) (m : List (String × V))
      → find j (remove k m) ≡ (if k == j then none else find j m)
  unfolding find remove
  find-remove k j [] = ground arith
  find-remove k j ((i, v) ∷ m) =
      ground (arith, eq_iff k j, eq_iff i k, eq_iff i j, find-remove k j m)

  pub get-set :
      (k j : String) (v : V) (c : KeyValueContext V)
      → get j (set k v c) ≡ (if k == j then some v else get j c)
  unfolding get set
  get-set k j v c = ground (arith, find-remove k j (made c.kv))

  pub get-delete :
      (k j : String) (c : KeyValueContext V)
      → get j (delete k c) ≡ (if k == j then none else get j c)
  unfolding get delete
  get-delete k j c = ground (arith, find-remove k j (made c.kv))

  -- The three writers of a context and its reader: `Get` after `Set` gives the value for that key and
  -- what it gave before for any other, after `Delete` it gives nothing for that key and what it gave
  -- before for any other, and after `reset` nothing for any key.
  pub context_lem :
      (k j : String) (v : V) (c : KeyValueContext V)
      → (get j (set k v c) ≡ (if k == j then some v else get j c))
        × (get j (delete k c) ≡ (if k == j then none else get j c))
        × (get j (reset c) ≡ none)
  context_lem k j v c = (get-set k j v c, get-delete k j c, unfold get reset in refl)
