-- ===== src/Buildall/Lockfile/Keys.antt =====
-- The keys of the lockfile: each stands once, and they are sorted.
use pyodide.Base.{
  Text, text_eq, ◌≡◌, refl, ap, ◌∙◌, ◌==◌, [], ◌∷◌, elem-nil, Bool-cases, inl, inr, arith,
}
use pyodide.Base.Dict.{Dict, put, keys, elem-keys-put}
use pyodide.Base.Strings.Order.{text_lt, insert_sorted, sort, Distinct}
use pyodide.Buildall.Lockfile.{PackageLockSpec, insert_item, sort_items}

keys-insert_item :
    (k : Text) (v : PackageLockSpec) (m : Dict Text PackageLockSpec)
    → keys (insert_item k v m) ≡ insert_sorted k (keys m)
unfolding insert_item insert_sorted keys
keys-insert_item k v [] = refl
keys-insert_item k v ((j, w) ∷ m) = elim (Bool-cases (text_lt j k)) [
  | inl less ↦ rw less (ap (λ l. j ∷ l) (keys-insert_item k v m))
  | inr other ↦ rw other refl
]

pub keys-sort_items : (m : Dict Text PackageLockSpec) → keys (sort_items m) ≡ sort (keys m)
unfolding sort_items sort keys
keys-sort_items [] = refl
keys-sort_items ((k, v) ∷ m) =
    keys-insert_item k v (sort_items m) ∙ ap (insert_sorted k) (keys-sort_items m)

pub keys-put-Distinct :
    (k : Text) (v : PackageLockSpec) (m : Dict Text PackageLockSpec)
    → Distinct (keys m)
    → Distinct (keys (put k v m))
unfolding put keys
keys-put-Distinct k v [] d = (elem-nil k, tt)
keys-put-Distinct k v ((j, w) ∷ m) (new, d) = elim (Bool-cases (k == j)) [
  | inl same ↦ rw same (new, d)
  | inr other ↦ rw other (
    elem-keys-put j k v m ∙ ground (arith, text_eq.beq_iff j k, text_eq.beq_iff k j),
    keys-put-Distinct k v m d,
  )
]
